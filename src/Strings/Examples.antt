-- ===== src/Strings/Examples.antt =====
-- Tests of the string operations.
use seestorm_ingest.Base.{◌≡◌, refl, [], ◌∷◌, some}
use seestorm_ingest.Base.Bytes.{lit}
use seestorm_ingest.Strings.{trim_space, to_upper, to_lower, split, join, fields, cut}

trims : trim_space (0xC2 ∷ 0xA0 ∷ lit " WI \t") ≡ lit "WI"
unfolding trim_space
trims = refl

uppers : to_upper (b'w' ∷ 0xC4 ∷ 0xB1 ∷ []) ≡ lit "WI"
unfolding to_upper
uppers = refl

lowers : to_lower (lit "Both") ≡ lit "both"
unfolding to_lower
lowers = refl

splits : split b',' (lit "a,,b") ≡ lit "a" ∷ [] ∷ lit "b" ∷ []
unfolding split
splits = refl

rejoins : join (lit " ") (fields (lit "  radar \n indicated ")) ≡ lit "radar indicated"
unfolding join fields
rejoins = refl

cuts : cut (lit "&&") (lit "a&&b&&") ≡ some (lit "a", lit "b&&")
unfolding cut
cuts = refl
