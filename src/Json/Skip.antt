-- ===== src/Json/Skip.antt =====
-- The scanner steps over the text of a value: `json_value_end` and `json_compound_end`.
use avault.Prelude.{
  ℕ, ◌+◌, ◌≡◌, refl, ap, ◌∙◌, Bool, true, false, not, ◌||◌, List, [], ◌∷◌, ◌++◌, append_assoc,
  arith, ◌==◌, if◌then◌else◌, length, all, length-append, All,
}
use avault.Prelude.Bytes.{Bytes, codes}
use avault.Prelude.Result.{ok}
use avault.Json.Values.{
  is_scalar_byte, is_json_ws, bracket, next_stack, compound_from, compound_end,
}
use avault.Json.Spelling.{Piece, IsPiece, print_pieces, print_string}
use avault.Json.StringEnds.{json_string_end-print_string}
use avault.Json.Tree.{
  Json, Items, Members, null, boolean, number, string, array, object, no_items, item, no_members,
  member, comma, print, print_items, print_members, IsNumber, IsJson, AreJson, AreMembers,
}
use native.Mathlib.Nat.{add-zero}

compound_from-skip :
    (xs rest : Bytes) (i : ℕ) (stack : Bytes)
    → compound_from (length xs) (xs ++ rest) i stack ≡ compound_from 0 rest (i + length xs) stack
unfolding compound_from
compound_from-skip [] rest i stack = rw add-zero refl
compound_from-skip (x ∷ xs) rest i stack =
    compound_from-skip xs rest (i + 1) stack ∙ ap (λ j. compound_from 0 rest j stack) (omega arith)

compound_from-print_string :
    (ps : List Piece) (rest : Bytes) (i : ℕ) (stack : Bytes)
    → All IsPiece ps
    → compound_from 0 (print_string ps ++ rest) i stack
      ≡ compound_from 0 rest (i + length (print_string ps)) stack
unfolding compound_from print_string
compound_from-print_string ps rest i stack h =
    let body = print_pieces ps ++ b'"' ∷ [] in
    rw (json_string_end-print_string ps rest h, compound_from)
      (ap (λ k. compound_from k (body ++ rest) (i + 1) stack) (omega arith)
        ∙ compound_from-skip body rest (i + 1) stack
        ∙ ap (λ j. compound_from 0 rest j stack) (omega arith))

-- A byte that is neither a quote nor a bracket.
abbrev is_loose : ℕ → Bool
is_loose c = not (c == b'"' || c == b'{' || c == b'[' || c == b'}' || c == b']')

loose-step :
    (x : ℕ) (rest : Bytes) (i t : ℕ) (stack : Bytes)
    → is_loose x ≡ true
    → compound_from 0 (x ∷ rest) i (t ∷ stack) ≡ compound_from 0 rest (i + 1) (t ∷ stack)
unfolding compound_from next_stack
loose-step x rest i t stack h = ground arith

compound_from-loose :
    (xs rest : Bytes) (i t : ℕ) (stack : Bytes)
    → all is_loose xs ≡ true
    → compound_from 0 (xs ++ rest) i (t ∷ stack) ≡ compound_from 0 rest (i + length xs) (t ∷ stack)
compound_from-loose [] rest i t stack h = rw add-zero refl
compound_from-loose (x ∷ xs) rest i t stack h =
    loose-step x (xs ++ rest) i t stack (ground arith)
    ∙ compound_from-loose xs rest (i + 1) t stack (ground arith)
    ∙ ap (λ j. compound_from 0 rest j (t ∷ stack)) (omega arith)

scalar-loose : (c : ℕ) → is_scalar_byte c ≡ true → is_loose c ≡ true
scalar-loose c h = ground arith

scalars-loose : (cs : Bytes) → all is_scalar_byte cs ≡ true → all is_loose cs ≡ true
scalars-loose [] h = refl
scalars-loose (c ∷ cs) h = ground (arith, scalar-loose c, scalars-loose cs)

ws-loose : (cs : Bytes) → all is_json_ws cs ≡ true → all is_loose cs ≡ true
ws-loose [] h = refl
ws-loose (c ∷ cs) h = ground (arith, ws-loose cs)

number-loose : (text : Bytes) → IsNumber text → all is_loose text ≡ true
number-loose [] h = absurd h
number-loose (c ∷ cs) (h, hs) = ground (arith, scalars-loose cs hs)

open_step :
    (x : ℕ) (rest : Bytes) (i : ℕ) (stack : Bytes)
    → bracket x ≡ true
    → compound_from 0 (x ∷ rest) i stack ≡ compound_from 0 rest (i + 1) (x ∷ stack)
unfolding compound_from next_stack
open_step x rest i stack h = ground arith

-- A piece of text that the scanner steps over.
abbrev pub Steps : Bytes → Type 0
Steps xs =
    (rest : Bytes) (i t : ℕ) (stack : Bytes)
    → compound_from 0 (xs ++ rest) i (t ∷ stack) ≡ compound_from 0 rest (i + length xs) (t ∷ stack)

Steps-append : (xs ys : Bytes) → Steps xs → Steps ys → Steps (xs ++ ys)
Steps-append xs ys h k rest i t stack =
    ap (λ zs. compound_from 0 zs i (t ∷ stack)) (append_assoc xs ys rest)
    ∙ h (ys ++ rest) i t stack
    ∙ k rest (i + length xs) t stack
    ∙ ap (λ j. compound_from 0 rest j (t ∷ stack)) (omega (arith, length-append {0} xs ys))

-- The bracket that closes another.
abbrev pub closing : ℕ → ℕ
closing x = if x == b'[' then b']' else b'}'

close_step :
    (x : ℕ) (rest : Bytes) (i t : ℕ) (stack : Bytes)
    → bracket x ≡ true
    → compound_from 0 (closing x ∷ rest) i (x ∷ t ∷ stack)
      ≡ compound_from 0 rest (i + 1) (t ∷ stack)
unfolding compound_from next_stack
close_step x rest i t stack h = ground arith

close_last :
    (x : ℕ) (rest : Bytes) (i : ℕ)
    → bracket x ≡ true
    → compound_from 0 (closing x ∷ rest) i (x ∷ []) ≡ ok (i + 1)
unfolding compound_from next_stack
close_last x rest i h = ground arith

Steps-brackets :
    (x : ℕ) (body : Bytes) → bracket x ≡ true → Steps body → Steps (x ∷ (body ++ closing x ∷ []))
Steps-brackets x body h steps rest i t stack =
    open_step x ((body ++ closing x ∷ []) ++ rest) i (t ∷ stack) h
    ∙ ap (λ zs. compound_from 0 zs (i + 1) (x ∷ t ∷ stack))
        (append_assoc body (closing x ∷ []) rest)
    ∙ steps (closing x ∷ rest) (i + 1) x (t ∷ stack)
    ∙ close_step x rest (i + 1 + length body) t stack h
    ∙ ap (λ j. compound_from 0 rest j (t ∷ stack))
        (omega (arith, length-append {0} body (closing x ∷ [])))

pub compound_end-brackets :
    (x : ℕ) (body rest : Bytes) (i : ℕ)
    → bracket x ≡ true
    → Steps body
    → compound_end (x ∷ (body ++ closing x ∷ []) ++ rest) i
      ≡ ok (i + length (x ∷ (body ++ closing x ∷ [])))
compound_end-brackets x body rest i h steps =
    ap (λ zs. compound_from 0 zs (i + 1) (x ∷ [])) (append_assoc body (closing x ∷ []) rest)
    ∙ steps (closing x ∷ rest) (i + 1) x []
    ∙ close_last x rest (i + 1 + length body) h
    ∙ ap ok (omega (arith, length-append {0} body (closing x ∷ [])))

module _ (ws : Bytes) (ws-Space : all is_json_ws ws ≡ true) where
  comma-Steps : (b : Bool) → Steps (comma b)
  comma-Steps true rest i t stack = rw add-zero refl
  comma-Steps false rest i t stack = loose-step b',' rest i t stack refl

  ws-Steps : Steps ws
  ws-Steps rest i t stack = compound_from-loose ws rest i t stack (ws-loose ws ws-Space)

  string-Steps : (ps : List Piece) → All IsPiece ps → Steps (print_string ps)
  string-Steps ps h rest i t stack = compound_from-print_string ps rest i (t ∷ stack) h

  colon-Steps : Steps (b':' ∷ [])
  colon-Steps rest i t stack = loose-step b':' rest i t stack refl

  mutual
    unfolding print

    pub print-Steps : (v : Json) → IsJson v → Steps (print ws v)
    print-Steps null h rest i t stack = compound_from-loose (codes "null") rest i t stack refl
    print-Steps (boolean true) h rest i t stack =
        compound_from-loose (codes "true") rest i t stack refl
    print-Steps (boolean false) h rest i t stack =
        compound_from-loose (codes "false") rest i t stack refl
    print-Steps (number text) h rest i t stack =
        compound_from-loose text rest i t stack (number-loose text h)
    print-Steps (string ps) h rest i t stack = string-Steps ps h rest i t stack
    print-Steps (array xs) h rest i t stack =
        Steps-brackets b'[' (print_items ws true xs) refl (print_items-Steps true xs h) rest i t
          stack
    print-Steps (object ms) h rest i t stack =
        Steps-brackets b'{' (print_members ws true ms) refl (print_members-Steps true ms h) rest i t
          stack

    pub print_items-Steps : (b : Bool) (xs : Items) → AreJson xs → Steps (print_items ws b xs)
    print_items-Steps b no_items h rest i t stack = ws-Steps rest i t stack
    print_items-Steps b (item v xs) (h, hs) rest i t stack =
        let rest_items = print_items ws false xs in
        let more = Steps-append ws rest_items ws-Steps (print_items-Steps false xs hs) in
        Steps-append (comma b) (ws ++ (print ws v ++ (ws ++ rest_items))) (comma-Steps b)
          (Steps-append ws (print ws v ++ (ws ++ rest_items)) ws-Steps
            (Steps-append (print ws v) (ws ++ rest_items) (print-Steps v h) more))
          rest i t stack

    pub print_members-Steps :
        (b : Bool) (ms : Members) → AreMembers ms → Steps (print_members ws b ms)
    print_members-Steps b no_members h rest i t stack = ws-Steps rest i t stack
    print_members-Steps b (member k v ms) (hk, h, hs) rest i t stack =
        let rest_members = print_members ws false ms in
        let more = Steps-append ws rest_members ws-Steps (print_members-Steps false ms hs) in
        let value = ws ++ (print ws v ++ (ws ++ rest_members)) in
        Steps-append (comma b) (ws ++ (print_string k ++ (ws ++ b':' ∷ value))) (comma-Steps b)
          (Steps-append ws (print_string k ++ (ws ++ b':' ∷ value)) ws-Steps (
            Steps-append (print_string k) (ws ++ b':' ∷ value) (string-Steps k hk) (
              Steps-append ws (b':' ∷ value) ws-Steps (
                Steps-append (b':' ∷ []) value colon-Steps (
                  Steps-append ws (print ws v ++ (ws ++ rest_members)) ws-Steps
                    (Steps-append (print ws v) (ws ++ rest_members) (print-Steps v h) more))))))
          rest i t stack
