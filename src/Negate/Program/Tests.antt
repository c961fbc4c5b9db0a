-- ===== src/Negate/Program/Tests.antt =====
-- lab08/src/negate.c: a run of the program on a small image.
use agh_sem4_sysopy.Common.{
  ℕ, zero, suc, ◌-◌, ◌≤◌, ◌<◌, ◌≡◌, refl, Option, some, List, [], ◌∷◌, arith,
}
use agh_sem4_sysopy.Libc.Numbers.{strtol, to_int}
use agh_sem4_sysopy.Libc.Strings.{str_eq}
use agh_sem4_sysopy.Libc.Text.{codes}
use agh_sem4_sysopy.Negate.Image.{Image, IsGrey, cell, negated, val_from}
use agh_sem4_sysopy.Negate.Files.{loaded, load_image, save_image}
use agh_sem4_sysopy.Negate.Files.Cells.{cells_from}
use agh_sem4_sysopy.Negate.Files.Loaded.{IsSavable, reloaded}
use agh_sem4_sysopy.Negate.Numbers
use agh_sem4_sysopy.Negate.Program.{
  numbers, writes, exits, method_of, main, AllJoined, AllSteady, with_option,
}
use agh_sem4_sysopy.Negate.Program.Negative.{main-negative}

abbrev picture : Image
picture = record {
  type = codes "P2\n";
  cells = 0 ∷ 9 ∷ 5 ∷ 10 ∷ 4 ∷ 6 ∷ [];
  height = 2;
  width = 3;
  pixel_max = 10;
}

abbrev in_turns : ℕ → List ℕ
in_turns zero = []
in_turns (suc n) = 0 ∷ 1 ∷ in_turns n

abbrev one_file : List ℕ → Option (List ℕ)
one_file name = some (save_image picture)

picture-IsSavable : IsSavable 6 picture
picture-IsSavable = record {
  first = 80;
  second = 50;
  typed = refl;
  one_line = (refl, (refl, tt));
  width_int = omega arith;
  height_int = omega arith;
  max_int = omega arith;
  room = omega arith;
  bytes = bytes;
}
  where
    bytes : (i : ℕ) → cell picture i < 256
    bytes i = ground arith

picture-IsGrey : IsGrey picture
picture-IsGrey = record { depth = omega arith; range = range; room = omega arith }
  where
    range : (i : ℕ) → cell picture i ≤ 10
    range i = ground arith

joined : AllJoined numbers 2 (in_turns 18) (reloaded 6 picture)
unfolding Numbers.run Numbers.thread_step val_from negated cells_from
joined = refl

steady : AllSteady numbers 2 (in_turns 18) (reloaded 6 picture)
unfolding Numbers.AllSteady Numbers.thread_step val_from negated cells_from
steady = (
  tt,
  (
    tt,
    (
      refl,
      (
        refl,
        (
          tt,
          (
            tt,
            (
              tt,
              (
                tt,
                (
                  refl,
                  (
                    refl,
                    (
                      tt,
                      (
                        tt,
                        (
                          tt,
                          (
                            tt,
                            (
                              refl,
                              (
                                refl,
                                (
                                  tt,
                                  (
                                    tt,
                                    (
                                      tt,
                                      (
                                        tt,
                                        (
                                          refl,
                                          (
                                            refl,
                                            (
                                              tt,
                                              (
                                                tt,
                                                (
                                                  tt,
                                                  (
                                                    tt,
                                                    (
                                                      refl,
                                                      (
                                                        refl,
                                                        (
                                                          tt,
                                                          (
                                                            tt,
                                                            (
                                                            tt,
                                                            (tt, (refl, (refl, (tt, (tt, tt))))),
                                                            ),
                                                          ),
                                                        ),
                                                      ),
                                                    ),
                                                  ),
                                                ),
                                              ),
                                            ),
                                          ),
                                        ),
                                      ),
                                    ),
                                  ),
                                ),
                              ),
                            ),
                          ),
                        ),
                      ),
                    ),
                  ),
                ),
              ),
            ),
          ),
        ),
      ),
    ),
  ),
)

no_arguments : main 6 one_file [] (codes "negate" ∷ codes "2" ∷ codes "rows" ∷ [] ∷ [] ∷ []) ≡ exits
unfolding main with_option method_of str_eq strtol to_int
no_arguments = refl

main-negative_example :
    (contents : List ℕ) × (negative : Image) × (main 6 one_file
        (in_turns 18)
        (codes "negate" ∷ codes "2" ∷ codes "numbers" ∷ codes "in.pgm" ∷ codes "out.pgm" ∷ [])
      ≡ writes (codes "out.pgm") contents)
    × (load_image 6 contents ≡ loaded negative)
    × (negative.type ≡ codes "P2\n")
    × (negative.width ≡ 3)
    × (negative.height ≡ 2)
    × (negative.pixel_max ≡ 10)
    × ((j : ℕ) → j < 6 → cell negative j ≡ 10 - cell picture j)
unfolding method_of str_eq strtol to_int
main-negative_example =
    main-negative 6 2 one_file (in_turns 18) picture picture-IsSavable picture-IsGrey
      (codes "negate") (codes "2") (codes "numbers") (codes "in.pgm") (codes "out.pgm") numbers refl
      (omega arith) refl refl steady joined
