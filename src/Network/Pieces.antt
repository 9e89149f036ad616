-- ===== src/Network/Pieces.antt =====
-- A file in the pieces that `pread` finds at the multiples of 512.
use projet_trtp.Base.{
  ℕ, zero, suc, ◌+◌, ◌*◌, ◌≤◌, ◌≡◌, ◌≢◌, refl, sym, ap, ◌∙◌, List, [], ◌∷◌, ◌++◌, some, arith,
  length, take, drop, length-drop, length-take, drop-add, get_elem?, All, append_assoc,
}
use projet_trtp.Base.Bytes.{IsByte, FirstByte, All-FirstByte, FirstByte-take}
use projet_trtp.Network.{IsFile, contents}

-- In at most `fuel` pieces, which is enough where the file has no more bytes.
abbrev pub pieces_of : (fuel : ℕ) → List ℕ → List (List ℕ)
pieces_of zero file = []
pieces_of (suc fuel) [] = []
pieces_of (suc fuel) (b ∷ bs) = take 512 (b ∷ bs) ∷ pieces_of fuel (drop 512 (b ∷ bs))

abbrev pub pieces : List ℕ → List (List ℕ)
pieces file = pieces_of (length file) file

take-drop : (n : ℕ) (xs : List ℕ) → take n xs ++ drop n xs ≡ xs
take-drop zero xs = refl
take-drop (suc n) [] = refl
take-drop (suc n) (x ∷ xs) = ap (λ (l : List ℕ). x ∷ l) (take-drop n xs)

pieces_of-IsFile : (fuel : ℕ) (file : List ℕ) → IsFile (pieces_of fuel file)
pieces_of-IsFile zero file = tt
pieces_of-IsFile (suc fuel) [] = tt
pieces_of-IsFile (suc fuel) (b ∷ bs) =
    let size = length-take 512 (b ∷ bs) in
    (((λ e. absurd (omega arith)), omega arith), pieces_of-IsFile fuel (drop 512 (b ∷ bs)))

contents-pieces_of :
    (fuel : ℕ) (file : List ℕ) → length file ≤ fuel → contents (pieces_of fuel file) ≡ file
contents-pieces_of zero [] h = refl
contents-pieces_of zero (b ∷ bs) h = absurd (omega arith)
contents-pieces_of (suc fuel) [] h = refl
contents-pieces_of (suc fuel) (b ∷ bs) h =
    let size = length-drop 512 (b ∷ bs) in
    ap (λ (l : List ℕ). take 512 (b ∷ bs) ++ l)
      (contents-pieces_of fuel (drop 512 (b ∷ bs)) (omega arith))
    ∙ take-drop 512 (b ∷ bs)

-- What `pread` finds at a multiple of 512 is the piece, or nothing behind the last one.
abbrev pub PieceAt : List (List ℕ) → ℕ → List ℕ → Type 0
PieceAt ps n bytes = (bytes ≢ [] → get_elem? ps n ≡ some bytes) × (bytes ≡ [] → length ps ≤ n)

piece_nil : (n : ℕ) → take 512 (drop {A = ℕ} n []) ≡ []
piece_nil zero = refl
piece_nil (suc n) = refl

piece_suc :
    (n : ℕ) (xs : List ℕ)
    → take 512 (drop (512 * suc n) xs) ≡ take 512 (drop (512 * n) (drop 512 xs))
piece_suc n xs =
    let e : 512 * suc n ≡ 512 + 512 * n = omega arith in
    ap (λ (k : ℕ). take 512 (drop k xs)) e ∙ ap (take 512) (drop-add 512 (512 * n) xs)

pieces_of-PieceAt :
    (fuel : ℕ) (file : List ℕ) (n : ℕ)
    → length file ≤ fuel
    → PieceAt (pieces_of fuel file) n (take 512 (drop (512 * n) file))
pieces_of-PieceAt zero [] n h = ((λ ne. absurd (ne (piece_nil (512 * n)))), λ _. omega arith)
pieces_of-PieceAt zero (b ∷ bs) n h = absurd (omega arith)
pieces_of-PieceAt (suc fuel) [] n h = ((λ ne. absurd (ne (piece_nil (512 * n)))), λ _. omega arith)
pieces_of-PieceAt (suc fuel) (b ∷ bs) zero h = ((λ _. refl), λ e. absurd (cc e))
pieces_of-PieceAt (suc fuel) (b ∷ bs) (suc n) h =
    let size = length-drop 512 (b ∷ bs) in
    let (there, beyond) = pieces_of-PieceAt fuel (drop 512 (b ∷ bs)) n (omega arith) in
    let same = piece_suc n (b ∷ bs) in
    (
      (λ ne. there (λ e. ne (same ∙ e)) ∙ ap (λ (l : List ℕ). some l) (sym same)),
      λ e. let h' = beyond (sym same ∙ e) in omega arith,
    )

pub pieces-IsFile : (file : List ℕ) → IsFile (pieces file)
pieces-IsFile file = pieces_of-IsFile (length file) file

pub contents-pieces : (file : List ℕ) → contents (pieces file) ≡ file
contents-pieces file = contents-pieces_of (length file) file (omega arith)

pub pieces-PieceAt :
    (file : List ℕ) (n : ℕ) → PieceAt (pieces file) n (take 512 (drop (512 * n) file))
pieces-PieceAt file n = pieces_of-PieceAt (length file) file n (omega arith)

-- The first pieces are a part of the file.
pub contents-take :
    (ps : List (List ℕ)) (n : ℕ) → contents (take n ps) ++ contents (drop n ps) ≡ contents ps
contents-take ps zero = refl
contents-take [] (suc n) = refl
contents-take (p ∷ ps) (suc n) =
    append_assoc p (contents (take n ps)) (contents (drop n ps))
    ∙ ap (λ (l : List ℕ). p ++ l) (contents-take ps n)

FirstByte-drop : (n : ℕ) (xs : List ℕ) → All IsByte xs → FirstByte (drop n xs)
FirstByte-drop zero xs h = All-FirstByte xs h
FirstByte-drop (suc n) [] h = tt
FirstByte-drop (suc n) (x ∷ xs) (p, h) = FirstByte-drop n xs h

-- What `pread` finds anywhere begins with a byte.
pub piece-FirstByte : (n : ℕ) (file : List ℕ) → All IsByte file → FirstByte (take 512 (drop n file))
piece-FirstByte n file h = FirstByte-take 512 (drop n file) (FirstByte-drop n file h)
