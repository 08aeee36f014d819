-- ===== src/Inscriptions/Pieces.antt =====
-- An inscription whose pieces are spread over scripts is put together.
use bel_20_indexer.Prelude.{
  ℕ, zero, suc, ◌-◌, ◌<◌, ◌≡◌, refl, ap, sym, ◌∙◌, arith, some, List, [], ◌∷◌, ◌++◌, true, false,
  ◌==◌, nat_eq, list_eq, list_beq, length, append_assoc, append-nil, ap₂,
}
use bel_20_indexer.Inscriptions.Push.{decode_push_datas, push_data_to_number}
use bel_20_indexer.Inscriptions.Envelope.{protocol_id}
use bel_20_indexer.Inscriptions.Parse.{
  ParsedInscription, partial, single, of_body, is_next, ChunksEnd, finished, left, read_chunks,
  continues, read_scripts, read_header, parse,
}

-- Pieces, each with the push that numbers it.
abbrev pub Pieces : Type 0
Pieces = List (List ℕ × List ℕ)

abbrev pub pushes : Pieces → List (List ℕ)
pushes [] = []
pushes (p ∷ ps) = p.0 ∷ (p.1 ∷ pushes ps)

abbrev pub chunks : Pieces → List ℕ
chunks [] = []
chunks (p ∷ ps) = p.1 ++ chunks ps

-- The pieces are numbered down from `n` that are left, and are no more than those.
abbrev pub CountDown : ℕ → Pieces → Type 0
CountDown n [] = Unit
CountDown zero (p ∷ ps) = ⊥
CountDown (suc n) (p ∷ ps) = (push_data_to_number p.0 ≡ some n) × CountDown n ps

-- The scripts hold the pieces that follow, one at least in each.
abbrev pub Follow : ℕ → List (List ℕ) → List Pieces → Type 0
Follow n [] [] = Unit
Follow n [] (g ∷ gs) = ⊥
Follow n (s ∷ ss) [] = ⊥
Follow n (s ∷ ss) (g ∷ gs) =
    (decode_push_datas s ≡ some (pushes g))
    × (0 < length g)
    × CountDown n g
    × Follow (n - length g) ss gs

abbrev pub pieces_left : ℕ → List Pieces → ℕ
pieces_left n [] = n
pieces_left n (g ∷ gs) = pieces_left (n - length g) gs

abbrev pub whole_body : List Pieces → List ℕ
whole_body [] = []
whole_body (g ∷ gs) = chunks g ++ whole_body gs

-- What is left behind the pieces of a script.
abbrev ends : ℕ → List ℕ → ChunksEnd
ends zero body = finished body
ends (suc n) body = left (suc n) body

is_next-number :
    (n : ℕ) (number : List ℕ) → push_data_to_number number ≡ some n → is_next (suc n) number ≡ true
unfolding is_next
is_next-number n number h = rw (is_next, h) (ground arith)

ends-same : (m n : ℕ) (b c : List ℕ) → m ≡ n → b ≡ c → ends m b ≡ ends n c
ends-same m n b c p q = ap₂ (λ k d. ends k d) p q

read_chunks-none : (n : ℕ) (body : List ℕ) → read_chunks n body [] ≡ ends n body
unfolding read_chunks
read_chunks-none zero body = refl
read_chunks-none (suc n) body = refl

read_chunks-one :
    (n : ℕ) (body number chunk : List ℕ) (rest : List (List ℕ))
    → push_data_to_number number ≡ some n
    → read_chunks (suc n) body (number ∷ (chunk ∷ rest)) ≡ read_chunks n (body ++ chunk) rest
unfolding read_chunks
read_chunks-one n body number chunk rest h = rw (is_next-number n number h) refl

read_chunks-pieces :
    (n : ℕ) (body : List ℕ) (g : Pieces)
    → CountDown n g
    → read_chunks n body (pushes g) ≡ ends (n - length g) (body ++ chunks g)
read_chunks-pieces n body [] h =
    read_chunks-none n body
    ∙ ends-same n (n - 0) body (body ++ []) (omega arith) (sym (append-nil body))
read_chunks-pieces zero body (p ∷ ps) h = absurd h
read_chunks-pieces (suc n) body (p ∷ ps) h =
    read_chunks-one n body p.0 p.1 (pushes ps) h.0
    ∙ read_chunks-pieces n (body ++ p.1) ps h.1
    ∙ ends-same (n - length ps) (suc n - suc (length ps)) ((body ++ p.1) ++ chunks ps)
        (body ++ (p.1 ++ chunks ps)) (omega arith) (append_assoc body p.1 (chunks ps))

-- What is read of the pieces: the inscription if they are all there.
abbrev pub result : List ℕ → ℕ → List ℕ → ParsedInscription
result content_type zero body = single (of_body content_type body)
result content_type (suc n) body = partial

read_scripts-last :
    (content_type : List ℕ) (n : ℕ) (body : List ℕ) (push_datas : List (List ℕ)) (m : ℕ)
    (after : List ℕ)
    → read_chunks n body push_datas ≡ ends m after
    → read_scripts content_type n body push_datas [] ≡ result content_type m after
unfolding read_scripts
read_scripts-last content_type n body push_datas zero after h = rw (read_scripts, h) refl
read_scripts-last content_type n body push_datas (suc m) after h = rw (read_scripts, h) refl

read_scripts-next :
    (content_type : List ℕ) (n : ℕ) (body : List ℕ) (push_datas : List (List ℕ)) (m : ℕ)
    (after script : List ℕ) (scripts : List (List ℕ)) (g : Pieces)
    → read_chunks n body push_datas ≡ ends m after
    → decode_push_datas script ≡ some (pushes g)
    → 0 < length g
    → CountDown m g
    → read_scripts content_type n body push_datas (script ∷ scripts)
      ≡ read_scripts content_type m after (pushes g) scripts
unfolding read_scripts continues
read_scripts-next content_type n body push_datas m after script scripts [] h d pos down =
    absurd (omega (arith, pos))
read_scripts-next content_type n body push_datas zero after script scripts (p ∷ ps) h d pos down =
    absurd down
read_scripts-next content_type n body push_datas (suc m) after script scripts (p ∷ ps) h d pos
      down =
    rw (read_scripts, h, d, continues, is_next-number m p.0 down.0) refl

read_scripts-Follow :
    (content_type : List ℕ) (n : ℕ) (body : List ℕ) (g : Pieces) (scripts : List (List ℕ))
    (gs : List Pieces)
    → CountDown n g
    → Follow (n - length g) scripts gs
    → read_scripts content_type n body (pushes g) scripts
      ≡ result content_type (pieces_left n (g ∷ gs)) (body ++ whole_body (g ∷ gs))
read_scripts-Follow content_type n body g [] [] down h =
    read_scripts-last content_type n body (pushes g) (n - length g) (body ++ chunks g)
      (read_chunks-pieces n body g down)
    ∙ ap (λ c. result content_type (n - length g) (body ++ c)) (sym (append-nil (chunks g)))
read_scripts-Follow content_type n body g [] (k ∷ gs) down h = absurd h
read_scripts-Follow content_type n body g (s ∷ ss) [] down h = absurd h
read_scripts-Follow content_type n body g (s ∷ ss) (k ∷ gs) down h =
    read_scripts-next content_type n body (pushes g) (n - length g) (body ++ chunks g) s ss k
      (read_chunks-pieces n body g down) h.0 h.1 h.2
    ∙ read_scripts-Follow content_type (n - length g) (body ++ chunks g) k ss gs h.2 h.3
    ∙ ap (result content_type (pieces_left (n - length g) (k ∷ gs)))
        (append_assoc body (chunks g) (whole_body (k ∷ gs)))

suc_not_zero : (n : ℕ) → ◌==◌ {A = ℕ} (suc n) 0 ≡ false
suc_not_zero n = ground arith

-- Pieces that are numbered down from their number, in as many scripts as there are, one at least in
-- each script behind the first, are put together to the inscription of all of them where none is
-- left, and to a partial inscription where some are.
pub parse-Follow :
    (number content_type script : List ℕ) (n : ℕ) (g : Pieces) (scripts : List (List ℕ))
    (gs : List Pieces)
    → decode_push_datas script ≡ some (protocol_id ∷ (number ∷ (content_type ∷ pushes g)))
    → push_data_to_number number ≡ some (suc n)
    → CountDown (suc n) g
    → Follow (suc n - length g) scripts gs
    → parse (script ∷ scripts)
      ≡ some (result content_type (pieces_left (suc n) (g ∷ gs)) (whole_body (g ∷ gs)))
unfolding parse read_header list_beq
parse-Follow number content_type script n g scripts gs d is_number down h =
    rw
      (
        parse,
        d,
        read_header,
        is_number,
        suc_not_zero n,
        read_scripts-Follow content_type (suc n) [] g scripts gs down h,
      )
      refl
