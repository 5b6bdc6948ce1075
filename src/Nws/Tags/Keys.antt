-- ===== src/Nws/Tags/Keys.antt =====
-- About the table tagKeys of internal/nws/tags.go: each key has a place of its own in the tags.
use seestorm_ingest.Base.{
  All, Bool, false, ◌≡◌, refl, true, List, [], ◌∷◌, arith, if◌then◌else◌, inl, inr, Bool-cases,
}
use seestorm_ingest.Base.Bytes.{Bytes, lit, bytes_eq, bytes_eq_iff}
use seestorm_ingest.Nws.Products.{WarningTags}
use seestorm_ingest.Nws.Tags.{TagKey, tag_keys, assign_tag}

abbrev pub pick : Bytes → Bytes → Bytes → Bytes → Bytes
pick key k v d = if bytes_eq key k then v else d

-- One line's value in the place of its key
abbrev pub spread : Bytes → Bytes → WarningTags → WarningTags
spread k v t = record {
  tornado = pick (lit "TORNADO") k v t.tornado;
  tornado_damage_threat = pick (lit "TORNADO DAMAGE THREAT") k v t.tornado_damage_threat;
  hail = pick (lit "HAIL") k v t.hail;
  max_hail_size = pick (lit "MAX HAIL SIZE") k v t.max_hail_size;
  wind = pick (lit "WIND") k v t.wind;
  max_wind_gust = pick (lit "MAX WIND GUST") k v t.max_wind_gust;
  thunderstorm_damage_threat =
      pick (lit "THUNDERSTORM DAMAGE THREAT") k v t.thunderstorm_damage_threat;
  flash_flood = pick (lit "FLASH FLOOD") k v t.flash_flood;
  flash_flood_damage_threat =
      pick (lit "FLASH FLOOD DAMAGE THREAT") k v t.flash_flood_damage_threat;
  expected_rainfall_rate = pick (lit "EXPECTED RAINFALL RATE") k v t.expected_rainfall_rate;
  spotter_activation = pick (lit "SPOTTER ACTIVATION") k v t.spotter_activation;
  source = pick (lit "SOURCE") k v t.source;
}

module _ (k v : Bytes) (t : WarningTags) (get : WarningTags → Bytes) (key : Bytes) where
  -- What an entry assigns shows at this place exactly if the entry has its key.
  abbrev Places : List TagKey → Type 0
  Places keys = All (λ tk. get (tk.assign t v) ≡ pick key tk.key v (get t)) keys

  abbrev has_key : List TagKey → Bool
  has_key [] = false
  has_key (tk ∷ keys) = if bytes_eq key tk.key then true else has_key keys

  assign_tag-miss :
      (keys : List TagKey)
      → bytes_eq key k ≡ false
      → Places keys
      → get (assign_tag keys k v t) ≡ get t
  unfolding assign_tag
  assign_tag-miss [] e h = refl
  assign_tag-miss (tk ∷ keys) e h =
      ground (arith, bytes_eq_iff tk.key k, assign_tag-miss keys e h.1, h.0, e)

  assign_tag-hit :
      (keys : List TagKey)
      → bytes_eq key k ≡ true
      → has_key keys ≡ true
      → Places keys
      → get (assign_tag keys k v t) ≡ v
  unfolding assign_tag
  assign_tag-hit [] e m h = absurd (cc m)
  assign_tag-hit (tk ∷ keys) e m h = ground (
    arith,
    bytes_eq_iff tk.key k,
    bytes_eq_iff key k,
    bytes_eq_iff key tk.key,
    assign_tag-hit keys e,
    h.0,
    e,
    m,
  )

  assign_tag-pick :
      (keys : List TagKey)
      → has_key keys ≡ true
      → Places keys
      → get (assign_tag keys k v t) ≡ pick key k v (get t)
  assign_tag-pick keys m h = elim (Bool-cases (bytes_eq key k)) [
    | inl e ↦ rw e (assign_tag-hit keys e m h)
    | inr e ↦ rw e (assign_tag-miss keys e h)
  ]

pub assign_tag-spread : (k v : Bytes) (t : WarningTags) → assign_tag tag_keys k v t ≡ spread k v t
unfolding tag_keys bytes_eq
assign_tag-spread k v t = λ i. record {
  tornado = assign_tag-pick k v t (λ s. s.tornado) (lit "TORNADO") tag_keys refl (search) i;
  tornado_damage_threat =
      assign_tag-pick k v t (λ s. s.tornado_damage_threat) (lit "TORNADO DAMAGE THREAT") tag_keys
        refl (search) i;
  hail = assign_tag-pick k v t (λ s. s.hail) (lit "HAIL") tag_keys refl (search) i;
  max_hail_size =
      assign_tag-pick k v t (λ s. s.max_hail_size) (lit "MAX HAIL SIZE") tag_keys refl (search) i;
  wind = assign_tag-pick k v t (λ s. s.wind) (lit "WIND") tag_keys refl (search) i;
  max_wind_gust =
      assign_tag-pick k v t (λ s. s.max_wind_gust) (lit "MAX WIND GUST") tag_keys refl (search) i;
  thunderstorm_damage_threat =
      assign_tag-pick k v t (λ s. s.thunderstorm_damage_threat) (lit "THUNDERSTORM DAMAGE THREAT")
        tag_keys refl (search) i;
  flash_flood =
      assign_tag-pick k v t (λ s. s.flash_flood) (lit "FLASH FLOOD") tag_keys refl (search) i;
  flash_flood_damage_threat =
      assign_tag-pick k v t (λ s. s.flash_flood_damage_threat) (lit "FLASH FLOOD DAMAGE THREAT")
        tag_keys refl (search) i;
  expected_rainfall_rate =
      assign_tag-pick k v t (λ s. s.expected_rainfall_rate) (lit "EXPECTED RAINFALL RATE") tag_keys
        refl (search) i;
  spotter_activation =
      assign_tag-pick k v t (λ s. s.spotter_activation) (lit "SPOTTER ACTIVATION") tag_keys refl
        (search) i;
  source = assign_tag-pick k v t (λ s. s.source) (lit "SOURCE") tag_keys refl (search) i;
}
