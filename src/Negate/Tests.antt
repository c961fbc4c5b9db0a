-- ===== src/Negate/Tests.antt =====
-- lab08/src/negate.c: an image of two rows and three columns, two threads and their turns.
use agh_sem4_sysopy.Common.{ℕ, zero, suc, ◌≤◌, ◌≡◌, refl, List, [], ◌∷◌, arith, true}
use agh_sem4_sysopy.Negate.Image.{Image, IsGrey, size, cell, negated, val_from}
use agh_sem4_sysopy.Negate.Numbers
use agh_sem4_sysopy.Negate.Blocks
use agh_sem4_sysopy.Negate.Methods.{methods-agree}

abbrev picture : Image
picture = record {
  type = 80 ∷ 50 ∷ [];
  cells = 0 ∷ 9 ∷ 5 ∷ 10 ∷ 4 ∷ 6 ∷ [];
  height = 2;
  width = 3;
  pixel_max = 10;
}

picture-IsGrey : IsGrey picture
picture-IsGrey = record { depth = omega arith; range = range; room = omega arith }
  where
    range : (i : ℕ) → cell picture i ≤ 10
    range i = ground arith

abbrev in_turns : ℕ → List ℕ
in_turns zero = []
in_turns (suc k) = 0 ∷ 1 ∷ in_turns k

numbers_run :
    (Numbers.run 2 (in_turns 18) (Numbers.created 2 picture)).image.cells
    ≡ 10 ∷ 1 ∷ 5 ∷ 0 ∷ 6 ∷ 4 ∷ []
unfolding Numbers.run Numbers.thread_step val_from negated
numbers_run = refl

blocks_run :
    (Blocks.run 2 (in_turns 9) (Blocks.created 2 picture)).image.cells ≡ 10 ∷ 1 ∷ 5 ∷ 0 ∷ 6 ∷ 4 ∷ []
unfolding Blocks.run Blocks.thread_step negated
blocks_run = refl

numbers_end :
    let s = Numbers.run 2 (in_turns 18) (Numbers.created 2 picture) in
    Numbers.all_joined (size s.image) s.threads ≡ true
unfolding Numbers.run Numbers.thread_step val_from negated
numbers_end = refl

numbers_steady : Numbers.AllSteady 2 (in_turns 18) (Numbers.created 2 picture)
unfolding Numbers.AllSteady Numbers.thread_step val_from negated
numbers_steady = (
  tt,
  (
    tt,
    (
      refl,
      (
        refl,
        (
          tt,
          (
            tt,
            (
              tt,
              (
                tt,
                (
                  refl,
                  (
                    refl,
                    (
                      tt,
                      (
                        tt,
                        (
                          tt,
                          (
                            tt,
                            (
                              refl,
                              (
                                refl,
                                (
                                  tt,
                                  (
                                    tt,
                                    (
                                      tt,
                                      (
                                        tt,
                                        (
                                          refl,
                                          (
                                            refl,
                                            (
                                              tt,
                                              (
                                                tt,
                                                (
                                                  tt,
                                                  (
                                                    tt,
                                                    (
                                                      refl,
                                                      (
                                                        refl,
                                                        (
                                                          tt,
                                                          (
                                                            tt,
                                                            (
                                                            tt,
                                                            (tt, (refl, (refl, (tt, (tt, tt))))),
                                                            ),
                                                          ),
                                                        ),
                                                      ),
                                                    ),
                                                  ),
                                                ),
                                              ),
                                            ),
                                          ),
                                        ),
                                      ),
                                    ),
                                  ),
                                ),
                              ),
                            ),
                          ),
                        ),
                      ),
                    ),
                  ),
                ),
              ),
            ),
          ),
        ),
      ),
    ),
  ),
)

blocks_end :
    let s = Blocks.run 2 (in_turns 9) (Blocks.created 2 picture) in
    Blocks.all_joined picture 2 0 s.threads ≡ true
unfolding Blocks.run Blocks.thread_step negated
blocks_end = refl

methods-agree_example :
    cell (Numbers.run 2 (in_turns 18) (Numbers.created 2 picture)).image 4
    ≡ cell (Blocks.run 2 (in_turns 9) (Blocks.created 2 picture)).image 4
methods-agree_example =
    methods-agree picture picture-IsGrey 2 2 (omega arith) (omega arith) (in_turns 18) (in_turns 9)
      numbers_steady numbers_end blocks_end 4

abbrev one_cell : Image
one_cell = record picture { cells = 9 ∷ []; height = 1; width = 1 }

-- The cell is the second thread's, which turns it between the two reads of the first: the first thread
-- turns it back.
turned_back :
    (Numbers.run 3 (0 ∷ 1 ∷ 1 ∷ 1 ∷ 0 ∷ 0 ∷ []) (Numbers.created 3 one_cell)).image.cells ≡ 9 ∷ []
unfolding Numbers.run Numbers.thread_step val_from negated
turned_back = refl
