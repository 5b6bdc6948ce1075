-- ===== src/Poller/Schedule/Ticks.antt =====
-- About Run of internal/poller/poller.go: the loop over missed ticks ends, and where.
use seestorm_ingest.Base.{
  ℕ, zero, suc, ◌+◌, ◌*◌, ◌^◌, ◌≤◌, ◌<◌, ◌≡◌, refl, ap, ◌∙◌, sym, Bool, true, false, Option, none,
  some, List, [], ◌∷◌, length, ◌⊎◌, arith, Bool-cases, subst, ltb→lt, inl, inr,
}
use seestorm_ingest.Base.Int.{ℤ, pos, ◌+ℤ◌, ◌*ℤ◌, ◌≤ℤ◌, ltb_ℤ, int_laws}
use seestorm_ingest.Duration.{mul64, wrap64, wrap64-eq_self}
use seestorm_ingest.Poller.Schedule.{next_at, skip_missed, Surroundings, ticks_from, run_ticks}

le_mul : (a b : ℕ) → 0 < b → a ≤ a * b
le_mul a zero h = absurd (omega arith)
le_mul a (suc b) h = ground arith

suc_mul : (a b : ℕ) → suc a * b ≡ a * b + b
suc_mul a b = ground arith

mul_pos : (a b : ℕ) → pos a *ℤ pos b ≡ pos (a * b)
unfolding ◌*ℤ◌
mul_pos a b = ground arith

next_at_lem :
    (start : ℤ) (interval cycle : ℕ)
    → cycle * interval < 2 ^ 63
    → next_at start (pos interval) cycle ≡ start +ℤ pos (cycle * interval)
unfolding next_at mul64
next_at_lem start interval cycle h =
    ap (λ (z : ℤ). start +ℤ z)
      (ap wrap64 (mul_pos cycle interval)
        ∙ wrap64-eq_self (pos (cycle * interval)) (h, omega arith))

-- From reading `k` on, tick after tick had passed when the clock was read, up to tick `c`, which had not.
pub data Skips (clock : ℕ → ℤ) (start interval : ℤ) : ℕ → ℕ → ℕ → Type 0 where
  ahead :
      (k c : ℕ)
      → ltb_ℤ (next_at start interval c) (clock k) ≡ false
      → Skips clock start interval k c c
  missed :
      (k cycle c : ℕ)
      → ltb_ℤ (next_at start interval cycle) (clock k) ≡ true
      → Skips clock start interval (suc k) (suc cycle) c
      → Skips clock start interval k cycle c

module _ (clock : ℕ → ℤ) (start interval : ℤ) (fuel k cycle : ℕ) where
  stop_here :
      ltb_ℤ (next_at start interval cycle) (clock k) ≡ false
      → skip_missed (suc fuel) clock start interval k cycle ≡ some cycle
  unfolding skip_missed
  stop_here m =
      subst
        (λ (b : Bool).
          elim b [
            | false ↦ some cycle
            | true ↦ skip_missed fuel clock start interval (suc k) (suc cycle)
          ]
          ≡ some cycle)
        (sym m) refl

  go_on :
      ltb_ℤ (next_at start interval cycle) (clock k) ≡ true
      → skip_missed (suc fuel) clock start interval k cycle
        ≡ skip_missed fuel clock start interval (suc k) (suc cycle)
  unfolding skip_missed
  go_on m =
      subst
        (λ (b : Bool).
          elim b [
            | false ↦ some cycle
            | true ↦ skip_missed fuel clock start interval (suc k) (suc cycle)
          ]
          ≡ skip_missed fuel clock start interval (suc k) (suc cycle))
        (sym m) refl

module _ (clock : ℕ → ℤ) (start : ℤ) (interval late : ℕ) (positive : 0 < interval)
    (on_time : (k : ℕ) → clock k ≤ℤ start +ℤ pos late) (fits : late + interval < 2 ^ 63) where
  missed-early :
      (k cycle : ℕ)
      → cycle * interval < 2 ^ 63
      → ltb_ℤ (next_at start (pos interval) cycle) (clock k) ≡ true
      → cycle * interval < late
  missed-early k cycle h m =
      let e = next_at_lem start interval cycle h in
      let t = on_time k in
      let p = ltb→lt _ _ (ap (λ (z : ℤ). ltb_ℤ z (clock k)) (sym e) ∙ m) in omega int_laws

  near_of :
      (c cycle : ℕ)
      → (c ≡ suc cycle) ⊎ (c * interval ≤ late + interval)
      → cycle * interval < late
      → (c ≡ cycle) ⊎ (c * interval ≤ late + interval)
  near_of c cycle (inr h) early = inr h
  near_of c cycle (inl e) early = inr (
      subst (λ (x : ℕ). x * interval ≤ late + interval) (sym e)
        (omega (arith, early, suc_mul cycle interval)))

  -- With a positive interval, and a clock that in this round shows no more than `late` after the start,
  -- the loop over missed ticks ends within `late` + 1 rounds, if the products fit an int64. It ends at a
  -- tick `c` that had not passed when the clock was read, each tick before it had passed when it was
  -- looked at, and unless it is the first one, `c` lies at most one interval after `late`.
  pub skip_missed-Skips :
      (fuel k cycle : ℕ)
      → late ≤ fuel + cycle
      → cycle * interval < 2 ^ 63
      → (c : ℕ) × (skip_missed (suc fuel) clock start (pos interval) k cycle ≡ some c)
        × (cycle ≤ c)
        × ((c ≡ cycle) ⊎ (c * interval ≤ late + interval))
        × Skips clock start (pos interval) k cycle c
  skip_missed-Skips zero k cycle f h =
      elim (Bool-cases (ltb_ℤ (next_at start (pos interval) cycle) (clock k))) [
        | inl m ↦ absurd (omega (arith, missed-early k cycle h m, le_mul cycle interval positive))
        | inr m ↦ (
          cycle,
          stop_here clock start (pos interval) _ k cycle m,
          omega arith,
          inl refl,
          ahead k cycle m,
        )
      ]
  skip_missed-Skips (suc fuel) k cycle f h =
      elim (Bool-cases (ltb_ℤ (next_at start (pos interval) cycle) (clock k))) [
        | inr m ↦ (
          cycle,
          stop_here clock start (pos interval) _ k cycle m,
          omega arith,
          inl refl,
          ahead k cycle m,
        )
        | inl m ↦
            let early = missed-early k cycle h m in
            let (c, e, l, near, s) =
              skip_missed-Skips fuel (suc k) (suc cycle) (omega arith)
                (omega (arith, early, suc_mul cycle interval, fits)) in
            (
              c,
              go_on clock start (pos interval) _ k cycle m ∙ e,
              omega arith,
              near_of c cycle near early,
              missed k cycle c m s,
            )
      ]

-- Cycles start at ticks that are ahead of the clock, each later than the one before.
pub data Scheduled (w : Surroundings) (interval : ℤ) : ℕ → ℕ → List ℕ → Type 0 where
  ended : (round cycle : ℕ) → Scheduled w interval round cycle []
  waited :
      (round cycle c : ℕ) (ticks : List ℕ)
      → cycle ≤ c
      → Skips (w.clock round) w.start interval 0 cycle c
      → Scheduled w interval (suc round) (suc c) ticks
      → Scheduled w interval round cycle (c ∷ ticks)

module _ (interval late : ℕ) where
  room_of :
      (c cycle rest : ℕ)
      → (c ≡ cycle) ⊎ (c * interval ≤ late + interval)
      → cycle * interval + interval + rest < 2 ^ 63
      → late + interval + interval + rest < 2 ^ 63
      → suc c * interval + rest < 2 ^ 63
  room_of c cycle rest (inr near) h fits = omega (arith, near, fits, suc_mul c interval)
  room_of c cycle rest (inl e) h fits =
      subst (λ (x : ℕ). suc x * interval + rest < 2 ^ 63) (sym e)
        (omega (arith, h, suc_mul cycle interval))

module _ (w : Surroundings) (interval late : ℕ) (positive : 0 < interval)
    (on_time : (r k : ℕ) → w.clock r k ≤ℤ w.start +ℤ pos late) where
  abbrev after_skip : ℕ → ℕ → Option ℕ → List ℕ
  after_skip rounds round found = elim found [
    | none ↦ []
    | some c ↦ elim (w.done round) [
      | true ↦ []
      | false ↦ c ∷ ticks_from rounds (suc late) w (pos interval) (suc round) (suc c)
    ]
  ]

  ticks_from-after_skip :
      (rounds round cycle : ℕ) (found : Option ℕ)
      → skip_missed (suc late) (w.clock round) w.start (pos interval) 0 cycle ≡ found
      → ticks_from (suc rounds) (suc late) w (pos interval) round cycle
        ≡ after_skip rounds round found
  unfolding ticks_from
  ticks_from-after_skip rounds round cycle found e = ap (after_skip rounds round) e

  Sought : ℕ → ℕ → ℕ → List ℕ → Type 0
  Sought rounds round cycle ticks =
      Scheduled w (pos interval) round cycle ticks
      × (((r : ℕ) → w.done r ≡ false) → length ticks ≡ rounds)

  ticks_from-Sought :
      (rounds round cycle : ℕ)
      → cycle * interval + rounds * interval < 2 ^ 63
      → late + interval + rounds * interval < 2 ^ 63
      → Sought rounds round cycle (ticks_from rounds (suc late) w (pos interval) round cycle)
  unfolding ticks_from Sought
  ticks_from-Sought zero round cycle h fits = (ended round cycle, λ d. refl)
  ticks_from-Sought (suc rounds) round cycle h fits =
      let more = suc_mul rounds interval in
      let (c, e, l, near, skips) =
        skip_missed-Skips (w.clock round) w.start interval late positive (on_time round)
          (omega (arith, fits)) late 0 cycle (omega arith) (omega (arith, h)) in
      let room : suc c * interval + rounds * interval < 2 ^ 63 =
        room_of interval late c cycle (rounds * interval) near (omega (arith, h, more))
          (omega (arith, fits, more)) in
      let (rest, full) =
        ticks_from-Sought rounds (suc round) (suc c) room (omega (arith, fits, more)) in
      subst (Sought (suc rounds) round cycle)
        (sym (ticks_from-after_skip rounds round cycle (some c) e))
        (elim (Bool-cases (w.done round)) [
          | inl stopped ↦
              subst
                (λ (b : Bool). Sought (suc rounds) round cycle (elim b [
                  | true ↦ []
                  | false ↦ c ∷ ticks_from rounds (suc late) w (pos interval) (suc round) (suc c)
                ]))
                (sym stopped) (ended round cycle, λ d. absurd (cc (d round, stopped)))
          | inr going ↦
              subst
                (λ (b : Bool). Sought (suc rounds) round cycle (elim b [
                  | true ↦ []
                  | false ↦ c ∷ ticks_from rounds (suc late) w (pos interval) (suc round) (suc c)
                ]))
                (sym going) (waited round cycle c _ l skips rest, λ d. ap suc (full d))
        ])

  -- With a positive interval, and a clock that shows no more than `late` after the start, if the
  -- products fit an int64: each round of Run's loop gets past the missed ticks with `late` + 1 readings.
  -- The cycles start at rising multiples of the interval, the first being tick 1 or a later one; each
  -- is the first tick from its round's on that is still ahead of the clock. And as long as the context
  -- does not end, every round starts a cycle.
  pub run_ticks-Scheduled :
      (rounds : ℕ)
      → late + interval + rounds * interval < 2 ^ 63
      → let ticks = run_ticks rounds (suc late) w (pos interval) in
        Scheduled w (pos interval) 0 1 ticks
        × (((r : ℕ) → w.done r ≡ false) → length ticks ≡ rounds)
  unfolding run_ticks Sought
  run_ticks-Scheduled rounds fits = ticks_from-Sought rounds 0 1 (omega (arith, fits)) fits
