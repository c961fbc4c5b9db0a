-- ===== src/Consumer/Tests.antt =====
-- lab05/src: producers and the consumer at concrete bytes.
use agh_sem4_sysopy.Common.{ℕ, ◌≡◌, refl, true, List, [], ◌∷◌, arith, get_or}
use agh_sem4_sysopy.Libc.Text.{codes}
use agh_sem4_sysopy.Libc.Numbers.{decimal, strtol, to_int}
use agh_sem4_sysopy.Consumer.{produce, consume}
use agh_sem4_sysopy.Consumer.Rows.{file_of, store_of}
use agh_sem4_sysopy.Consumer.Received.{Entry, fifo_of, received, texts_for, consume-received}
use agh_sem4_sysopy.Consumer.Sent.{consume-produce}

produce_runs : produce 2 (codes "3") (codes "abc") ≡ codes "3\\ab\\3\\c\\"
unfolding produce
produce_runs = refl

-- Row 2 before row 1.
consume_runs : (consume (codes "2\\ab\\1\\x\\2\\c\\") []).file ≡ codes "\nx\nabc"
unfolding consume strtol to_int
consume_runs = refl

-- A separator in a file splits its text, and what follows is taken for the number of a row.
separator_splits : (consume (produce 3 (codes "1") (codes "a\\b")) []).file ≡ codes "\na"
unfolding consume produce strtol to_int
separator_splits = refl

abbrev sent : List Entry
sent =
    record { row = 1; first = 97; others = 98 ∷ [] }
    ∷ record { row = 0; first = 120; others = [] }
    ∷ record { row = 1; first = 99; others = [] }
    ∷ []

sent_texts : texts_for 1 sent ≡ codes "abc"
unfolding texts_for
sent_texts = refl

consume-received_example :
    (consume (fifo_of sent) [] ≡ store_of (received sent []) (file_of (received sent [])) true)
    × ((i : ℕ) → get_or (received sent []) i [] ≡ texts_for i sent)
consume-received_example = consume-received sent (
  omega arith,
  (refl, refl, (refl, refl, tt)),
  (omega arith, (refl, refl, tt), (omega arith, (refl, refl, tt), tt)),
)

consume-produce_example :
    (rows : List (List ℕ)) × ((consume (produce 2 (decimal 3) (codes "abc")) []).file
      ≡ file_of rows)
    × (get_or rows 2 [] ≡ codes "abc")
consume-produce_example =
    consume-produce 1 2 (codes "abc") (omega arith) (refl, refl, (refl, refl, (refl, refl, tt)))
