-- ===== src/Window/ReceiverTests.antt =====
-- The receiver's tests on sequence numbers, against distances on the circle of 256.
use projet_trtp.Base.{ℕ, ◌+◌, ◌≤◌, ◌<◌, ◌≡◌, ◌≢◌, true, arith, ltb, leb}
use projet_trtp.Window.{WindowPkt, is_in_window, is_seqnum_greater, distance}

-- With a window of 1 to 31 packets `is_in_window` accepts exactly the numbers at most `windowsize + 1`
-- behind the head: two more than the window has places.
pub is_in_window_lem :
    (window : WindowPkt) (seqnum : ℕ)
    → window.seqnum_head < 256
    → 1 ≤ window.windowsize
    → window.windowsize ≤ 31
    → seqnum < 256
    → is_in_window window seqnum ≡ leb (distance window.seqnum_head seqnum) (window.windowsize + 1)
unfolding is_in_window
is_in_window_lem window seqnum hh lo hi hs = ground arith

-- Unless the last number of the window is 255, `is_seqnum_greater` compares two numbers that
-- `is_in_window` accepts by their distance from the head.
pub is_seqnum_greater_lem :
    (window : WindowPkt) (a b : ℕ)
    → window.seqnum_head < 256
    → 1 ≤ window.windowsize
    → window.windowsize ≤ 31
    → a < 256
    → b < 256
    → is_in_window window a ≡ true
    → is_in_window window b ≡ true
    → window.seqnum_head + window.windowsize ≢ 255
    → is_seqnum_greater a b window
      ≡ ltb (distance window.seqnum_head b) (distance window.seqnum_head a)
unfolding is_seqnum_greater is_in_window
is_seqnum_greater_lem window a b hh lo hi ha hb ia ib ne = ground arith

-- If the last number of the window is 255, the number 0 is accepted as the one behind it, and yet
-- every other accepted number counts as greater.
pub is_seqnum_greater_zero :
    (window : WindowPkt) (a : ℕ)
    → window.seqnum_head + window.windowsize ≡ 255
    → 1 ≤ window.windowsize
    → window.windowsize ≤ 31
    → a < 256
    → a ≢ 0
    → is_in_window window a ≡ true
    → (is_in_window window 0 ≡ true)
      × (distance window.seqnum_head a < distance window.seqnum_head 0)
      × (is_seqnum_greater a 0 window ≡ true)
unfolding is_seqnum_greater is_in_window
is_seqnum_greater_zero window a e lo hi ha ne ia = ground arith
