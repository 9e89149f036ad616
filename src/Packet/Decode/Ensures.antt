-- ===== src/Packet/Decode/Ensures.antt =====
-- Postconditions of the steps of `pkt_decode`: no undefined behaviour, and what holds behind a step
-- that goes on (`N`) or returns (`X`).
use projet_trtp.Packet.Struct.{StatusCode, Pkt}
use projet_trtp.Packet.Decode.{Outcome, next, exit, fault, Step, ◌>>=◌}

abbrev pub Ensures :
    {A : Type 0} → (A → Pkt → Type 0) → (StatusCode → Pkt → Type 0) → Outcome A → Type 0
Ensures N X (next a pkt) = N a pkt
Ensures N X (exit status pkt) = X status pkt
Ensures N X fault = ⊥

module _ {A B : Type 0} (N : A → Pkt → Type 0) (M : B → Pkt → Type 0)
    (X : StatusCode → Pkt → Type 0) where
  after :
      (f : A → Step B) (o : Outcome A)
      → Ensures N X o
      → ((a : A) (pkt : Pkt) → N a pkt → Ensures M X (f a pkt))
      → Ensures M X
          (elim o [ next a pkt ↦ f a pkt | exit status pkt ↦ exit status pkt | fault ↦ fault ])
  after f (next a pkt) h k = k a pkt h
  after f (exit status pkt) h k = h
  after f fault h k = h

  -- One step, then the others.
  pub seq :
      (m : Step A) (f : A → Step B) (pkt : Pkt)
      → Ensures N X (m pkt)
      → ((a : A) (pkt' : Pkt) → N a pkt' → Ensures M X (f a pkt'))
      → Ensures M X ((m >>= f) pkt)
  seq m f pkt h k = after f (m pkt) h k
