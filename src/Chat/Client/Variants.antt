-- ===== src/Chat/Client/Variants.antt =====
-- lab06/src/SystemV/client.c, whose queues are numbers, and lab06/src/POSIX/client.c, whose queues are
-- opened by a path; the descriptor that `mq_open` gives for a path is a parameter.
use agh_sem4_sysopy.Common.{ℕ, List}
use agh_sem4_sysopy.Common.Int.{ℤ}
use agh_sem4_sysopy.Libc.Numbers.{print_int, strtol, to_int}
use agh_sem4_sysopy.Chat.Message
use agh_sem4_sysopy.Chat.Posix
use agh_sem4_sysopy.Chat.Client.{Variant, trim}

abbrev pub system_v : ℤ → Variant ℤ
system_v pqd = record {
  stop = Message.stop;
  disconnect = Message.disconnect;
  list = Message.list;
  connect = Message.connect;
  init = Message.init;
  opened = λ text. to_int (strtol text);
  init_text = print_int pqd;
  id_text = trim;
  disconnect_text = λ text. print_int pqd;
}

abbrev pub posix : ℤ → (List ℕ → ℤ) → Variant ℤ
posix privateid mq_open = record {
  stop = Posix.stop;
  disconnect = Posix.disconnect;
  list = Posix.list;
  connect = Posix.connect;
  init = Posix.init;
  opened = mq_open;
  init_text = print_int privateid;
  id_text = λ text. text;
  disconnect_text = λ text. text;
}
