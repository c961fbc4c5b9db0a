-- ===== src/Santa/Arrivals.antt =====
-- lab09/src/main.c: the turns of the elves keep the counts.
use agh_sem4_sysopy.Common.{
  ℕ, ◌+◌, ◌≤◌, ◌≡◌, refl, arith, Bool-cases, inl, inr, ◌∙◌, sym, ◌≢◌, ◌==◌,
}
use agh_sem4_sysopy.Santa.{
  Shared, SantaAt, Elf, working, queued, admitted, in_workshop, dismissed, signal, arrive,
  elf_enters, elf_turn,
}
use agh_sem4_sysopy.Santa.Counts.{is_out, is_helping, is_returned, Counts, Inv, with-Counts}

pub same_place : (p : SantaAt) → record {
  out : is_out (signal p) ≡ is_out p;
  help : is_helping (signal p) ≡ is_helping p;
  back : is_returned (signal p) ≡ is_returned p;
}
same_place p = record { out = ground arith; help = ground arith; back = ground arith }

-- A turn that may signal Santa and leaves the reindeer.
pub elf-Inv :
    {m m' : Shared}
    → Inv m
    → is_out m'.santa ≡ is_out m.santa
    → is_helping m'.santa ≡ is_helping m.santa
    → is_returned m'.santa ≡ is_returned m.santa
    → Counts m'
    → m'.waiting_reindeers ≡ m.waiting_reindeers
    → (m.waiting_elves ≡ 3 → m'.waiting_elves ≡ 3)
    → m'.locked ≡ m.locked
    → Inv m'
elf-Inv inv o h b c w k l = record {
  counts = c;
  out = λ q. w ∙ inv.out (sym o ∙ q);
  helps = λ q. k (inv.helps (sym h ∙ q));
  keeps = λ q. l ∙ inv.keeps (sym b ∙ q);
}

pub arrive-Inv : (i : ℕ) (m : Shared) → m.waiting_elves ≢ 3 → Inv m → Inv (arrive i m)
unfolding arrive
arrive-Inv i m n inv =
    let t : m.waiting_elves + 1 ≤ 3 = omega (arith, inv.counts.three, n) in
    let p = same_place m.santa in
    elim (Bool-cases (m.waiting_elves + 1 == 3)) [
      | inl e ↦ rw e (
          elf-Inv inv p.out p.help p.back (with-Counts inv.counts refl refl t) refl
            (λ q. absurd (n q)) refl)
      | inr e ↦ rw e (
          elf-Inv inv refl refl refl (with-Counts inv.counts refl refl t) refl (λ q. absurd (n q))
            refl)
    ]

pub elf_enters-Inv : (i : ℕ) (m : Shared) → Inv m → Inv (elf_enters i m)
elf_enters-Inv i m inv = elim (Bool-cases (m.waiting_elves == 3)) [
  | inl e ↦ rw e (
      elf-Inv inv refl refl refl (with-Counts inv.counts refl refl inv.counts.three) refl (λ q. q)
        refl)
  | inr e ↦ rw e (arrive-Inv i m (ground (arith, e)) inv)
]

pub elf_turn-Inv : (i : ℕ) (p : Elf) (m : Shared) → Inv m → Inv (elf_turn i p m)
unfolding elf_turn
elf_turn-Inv i working m inv = elf_enters-Inv i m inv
elf_turn-Inv i queued m inv = inv
elf_turn-Inv i admitted m inv = elf_enters-Inv i m inv
elf_turn-Inv i in_workshop m inv = inv
elf_turn-Inv i dismissed m inv =
    elf-Inv inv refl refl refl (with-Counts inv.counts refl refl inv.counts.three) refl (λ q. q)
      refl
