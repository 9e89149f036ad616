-- ===== src/Window/Tests.antt =====
-- The tests of sequence numbers at concrete windows, among them those of the unit test
-- src/linkedList/test_linkedList.c.
use projet_trtp.Base.{◌+◌, ◌<◌, ◌≡◌, refl, true, false, [], arith, ltb, leb}
use projet_trtp.Window.{
  WindowPkt, seqnum_in_window, is_in_sender_window, can_ack_window, is_in_window, is_seqnum_greater,
  distance, first_seqnum,
}
use projet_trtp.Window.SenderTests.{
  is_in_sender_window_lem, seqnum_in_window_lem, can_ack_window_lem,
}
use projet_trtp.Window.ReceiverTests.{
  is_in_window_lem, is_seqnum_greater_lem, is_seqnum_greater_zero,
}

abbrev plain : WindowPkt
plain = record { seqnum_head = 10; seqnum_tail = 20; windowsize = 11; list = [] }

abbrev cut : WindowPkt
cut = record { seqnum_head = 250; seqnum_tail = 4; windowsize = 11; list = [] }

-- Its last number is 255.
abbrev edge : WindowPkt
edge = record { seqnum_head = 240; seqnum_tail = 240; windowsize = 15; list = [] }

in_plain :
    (seqnum_in_window plain 15 11 ≡ true)
    × (seqnum_in_window plain 15 15 ≡ false)
    × (seqnum_in_window plain 21 20 ≡ true)
    × (seqnum_in_window cut 0 255 ≡ true)
    × (seqnum_in_window cut 1 3 ≡ false)
    × (seqnum_in_window cut 5 250 ≡ true)
unfolding seqnum_in_window
in_plain = (refl, refl, refl, refl, refl, refl)

is_in_sender_window_example : is_in_sender_window cut 2 ≡ leb (distance 250 2) (distance 250 4)
is_in_sender_window_example =
    is_in_sender_window_lem cut 2 (omega arith) (omega arith) (omega arith)

seqnum_in_window_example :
    seqnum_in_window cut 1 253
    ≡ ltb (distance (first_seqnum cut) 253) (distance (first_seqnum cut) 1)
unfolding first_seqnum
seqnum_in_window_example = seqnum_in_window_lem cut 1 253 (omega arith) (omega arith) (omega arith)

can_ack_window_example : can_ack_window cut 5 ≡ ltb (distance 250 5) (distance 250 4 + 31)
can_ack_window_example = can_ack_window_lem cut 5 (omega arith) (omega arith) (omega arith)

is_in_window_example : is_in_window cut 6 ≡ leb (distance 250 6) 12
is_in_window_example =
    is_in_window_lem cut 6 (omega arith) (omega arith) (omega arith) (omega arith)

is_seqnum_greater_example : is_seqnum_greater 3 252 cut ≡ ltb (distance 250 252) (distance 250 3)
unfolding is_in_window
is_seqnum_greater_example =
    is_seqnum_greater_lem cut 3 252 (omega arith) (omega arith) (omega arith) (omega arith)
      (omega arith) refl refl (omega arith)

is_seqnum_greater_zero_example :
    (is_in_window edge 0 ≡ true)
    × (distance 240 250 < distance 240 0)
    × (is_seqnum_greater 250 0 edge ≡ true)
unfolding is_in_window
is_seqnum_greater_zero_example =
    is_seqnum_greater_zero edge 250 (omega arith) (omega arith) (omega arith) (omega arith)
      (omega arith) refl
