-- ===== src/Santa/Counts.antt =====
-- lab09/src/main.c: what is counted between two turns, and the turns of Santa.
use agh_sem4_sysopy.Common.{
  ℕ, suc, ◌+◌, ◌≤◌, ◌≡◌, refl, ap, List, [], ◌∷◌, arith, Bool, true, false, Bool-cases, inl, inr,
  ◌&&◌, ◌∙◌, length, sum_by, ltb, ◌==◌,
}
use agh_sem4_sysopy.Santa.{
  Shared, SantaAt, starting, sleeping, signalled, delivering, helping, returned, Reindeer, away,
  harnessed, called, broadcast, call, santa_rest, santa_check, santa_back, santa_turn,
}

-- 1 for a reindeer that waits for Santa.
abbrev pub waits : Reindeer → ℕ
waits away = 0
waits harnessed = 1
waits called = 1

abbrev pub is_out : SantaAt → Bool
is_out (delivering _) = true
is_out _ = false

abbrev pub is_helping : SantaAt → Bool
is_helping (helping _) = true
is_helping _ = false

abbrev pub is_returned : SantaAt → Bool
is_returned returned = true
is_returned _ = false

pub record Counts (m : Shared) : Type 0 where
  pub nine : length m.reindeers ≡ 9
  pub counted : m.waiting_reindeers ≤ sum_by waits m.reindeers
  pub three : m.waiting_elves ≤ 3

pub record Inv (m : Shared) : Type 0 where
  pub counts : Counts m
  pub out : is_out m.santa ≡ true → m.waiting_reindeers ≡ 9
  pub helps : is_helping m.santa ≡ true → m.waiting_elves ≡ 3
  pub keeps : is_returned m.santa ≡ true → m.locked ≡ true

pub sum_by-call :
    (reindeers : List Reindeer) → sum_by waits (broadcast call reindeers) ≡ sum_by waits reindeers
unfolding sum_by
sum_by-call [] = refl
sum_by-call (away ∷ reindeers) = omega (arith, sum_by-call reindeers)
sum_by-call (harnessed ∷ reindeers) = omega (arith, sum_by-call reindeers)
sum_by-call (called ∷ reindeers) = omega (arith, sum_by-call reindeers)

pub length-broadcast {ℓ} :
    {A : Type ℓ} (wake : A → A) (xs : List A) → length (broadcast wake xs) ≡ length xs
length-broadcast wake [] = refl
length-broadcast wake (x ∷ xs) = ap suc (length-broadcast wake xs)

pub sum_by-waits : (reindeers : List Reindeer) → sum_by waits reindeers ≤ length reindeers
unfolding sum_by
sum_by-waits [] = omega arith
sum_by-waits (away ∷ reindeers) = omega (arith, sum_by-waits reindeers)
sum_by-waits (harnessed ∷ reindeers) = omega (arith, sum_by-waits reindeers)
sum_by-waits (called ∷ reindeers) = omega (arith, sum_by-waits reindeers)

-- Santa is neither out, nor with the elves, nor back for good.
pub quiet :
    {m : Shared}
    → Counts m
    → is_out m.santa ≡ false
    → is_helping m.santa ≡ false
    → is_returned m.santa ≡ false
    → Inv m
quiet c o h r = record {
  counts = c;
  out = λ q. absurd (ground (arith, o));
  helps = λ q. absurd (ground (arith, h));
  keeps = λ q. absurd (ground (arith, r));
}

pub with-Counts :
    {m m' : Shared}
    → Counts m
    → m'.reindeers ≡ m.reindeers
    → m'.waiting_reindeers ≡ m.waiting_reindeers
    → m'.waiting_elves ≤ 3
    → Counts m'
with-Counts c r w t = record {
  nine = ap length r ∙ c.nine;
  counted = rw (r, w) c.counted;
  three = t;
}

pub santa_rest-Inv : (jobs : ℕ) (m : Shared) → Counts m → Inv (santa_rest jobs m)
unfolding santa_rest
santa_rest-Inv jobs m c = elim (Bool-cases (m.waiting_elves == 3)) [
  | inl e ↦ rw e (record {
    counts = with-Counts c refl refl c.three;
    out = λ q. absurd (ground arith);
    helps = λ q. ground (arith, e);
    keeps = λ q. absurd (ground arith);
  })
  | inr e ↦ rw e (quiet (with-Counts c refl refl c.three) refl refl refl)
]

pub santa_check-Inv : (jobs : ℕ) (m : Shared) → Counts m → Inv (santa_check jobs m)
unfolding santa_check
santa_check-Inv jobs m c = elim (Bool-cases (ltb m.waiting_reindeers 9 && ltb m.waiting_elves 3)) [
  | inl e ↦ rw e (quiet (with-Counts c refl refl c.three) refl refl refl)
  | inr e ↦ rw e (elim (Bool-cases (m.waiting_reindeers == 9)) [
    | inl f ↦ rw f (record {
      counts = with-Counts c refl refl c.three;
      out = λ q. ground (arith, f);
      helps = λ q. absurd (ground arith);
      keeps = λ q. absurd (ground arith);
    })
    | inr f ↦ rw f (santa_rest-Inv jobs _ (with-Counts c refl refl c.three))
  ])
]

pub santa_back-Inv : (jobs : ℕ) (m : Shared) → Counts m → Inv (santa_back jobs m)
unfolding santa_back
santa_back-Inv jobs m c =
    let nine : length (broadcast call m.reindeers) ≡ 9 =
      length-broadcast call m.reindeers ∙ c.nine in
    elim (Bool-cases (jobs + 1 == 3)) [
      | inl e ↦ rw e (record {
        counts = record { nine = nine; counted = omega arith; three = c.three };
        out = λ q. absurd (ground arith);
        helps = λ q. absurd (ground arith);
        keeps = λ q. refl;
      })
      | inr e ↦ rw e (
          santa_rest-Inv (jobs + 1) _
            (record { nine = nine; counted = omega arith; three = c.three }))
    ]

pub santa_turn-Inv : (p : SantaAt) (m : Shared) → m.santa ≡ p → Inv m → Inv (santa_turn p m)
unfolding santa_turn
santa_turn-Inv (starting jobs) m e inv = santa_check-Inv jobs m inv.counts
santa_turn-Inv (sleeping jobs) m e inv = inv
santa_turn-Inv (signalled jobs) m e inv = santa_check-Inv jobs m inv.counts
santa_turn-Inv (delivering jobs) m e inv = santa_back-Inv jobs m inv.counts
santa_turn-Inv (helping jobs) m e inv =
    quiet (with-Counts inv.counts refl refl (omega arith)) refl refl refl
santa_turn-Inv returned m e inv = inv
