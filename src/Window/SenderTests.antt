-- ===== src/Window/SenderTests.antt =====
-- The sender's tests on sequence numbers, against distances on the circle of 256.
use projet_trtp.Base.{ℕ, ◌+◌, ◌<◌, ◌≡◌, arith, ltb, leb}
use projet_trtp.Window.{
  WindowPkt, first_seqnum, seqnum_in_window, is_in_sender_window, can_ack_window, distance,
}

-- `is_in_sender_window` accepts a number exactly if it lies between the first and the last of the
-- window, going round at 256.
pub is_in_sender_window_lem :
    (window : WindowPkt) (seqnum : ℕ)
    → window.seqnum_head < 256
    → window.seqnum_tail < 256
    → seqnum < 256
    → is_in_sender_window window seqnum
      ≡ leb (distance window.seqnum_head seqnum) (distance window.seqnum_head window.seqnum_tail)
unfolding is_in_sender_window
is_in_sender_window_lem window seqnum hh ht hs = ground arith

-- `seqnum_in_window` says that the packet comes before the acknowledged number, counted from the
-- first packet of the list (from the window's head, if the list is empty).
pub seqnum_in_window_lem :
    (window : WindowPkt) (ack_seqnum pkt_seqnum : ℕ)
    → first_seqnum window < 256
    → ack_seqnum < 256
    → pkt_seqnum < 256
    → seqnum_in_window window ack_seqnum pkt_seqnum
      ≡ ltb (distance (first_seqnum window) pkt_seqnum) (distance (first_seqnum window) ack_seqnum)
unfolding seqnum_in_window
seqnum_in_window_lem window ack_seqnum pkt_seqnum hf ha hp = ground arith

-- `can_ack_window` accepts an acknowledgement up to thirty numbers behind the last packet.
pub can_ack_window_lem :
    (window : WindowPkt) (seqnum : ℕ)
    → window.seqnum_head < 256
    → window.seqnum_tail < 256
    → seqnum < 256
    → can_ack_window window seqnum
      ≡ ltb
          (distance window.seqnum_head seqnum)
          (distance window.seqnum_head window.seqnum_tail + 31)
unfolding can_ack_window
can_ack_window_lem window seqnum hh ht hs = ground arith
