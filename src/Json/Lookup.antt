-- ===== src/Json/Lookup.antt =====
-- On the text of an object, the loop over the fields looks the field up.
use avault.Prelude.{
  ℕ, zero, suc, ◌+◌, ◌≤◌, ◌<◌, ◌≡◌, refl, sym, ap, ◌∙◌, inl, inr, Bool, true, false, ◌||◌, Option,
  none, some, List, [], ◌∷◌, ◌++◌, append_assoc, arith, ◌==◌, if◌then◌else◌, Bool-cases, length,
  drop, all,
}
use avault.Prelude.Bytes.{Bytes, eq_bytes}
use avault.Prelude.Result.{Result, ok, err}
use avault.Json.{JsonError, field_missing, max_stdin_secret_bytes}
use avault.Json.Values.{is_scalar_byte, is_json_ws, value_end, json_value_end}
use avault.Json.Fields.{found, next, field_key, after_value, field_round, field_loop, in_fuel}
use avault.Json.Spelling.{Piece, meanings, print_string}
use avault.Json.Tree.{
  Json, Members, null, boolean, number, string, array, object, no_members, member, print,
  print_members, IsJson, AreMembers,
}
use avault.Json.Ends.{passes, value_end-print}
use avault.Json.Field.{drop-past, skip_json_ws-past, next_is-here, field_key-print}
use avault.Json.Bounds.{field_round-next}

-- The first member of that name.
unfoldable pub lookup : Bytes → Members → Option Json
lookup field no_members = none
lookup field (member k v ms) = if eq_bytes (meanings k) field then some v else lookup field ms

abbrev pub KeysFit : Members → Type 0
KeysFit no_members = Unit
KeysFit (member k v ms) = (length (meanings k) ≤ max_stdin_secret_bytes) × KeysFit ms

module _ (ws : Bytes) where
  -- The loop gave the place of that value in the input, or no such field was there.
  abbrev pub Finds : Bytes → Option Json → Result JsonError ℕ → Type 0
  Finds input none r = r ≡ err field_missing
  Finds input (some v) r =
      (i : ℕ) × (after : Bytes) × (r ≡ ok i)
      × (drop i input ≡ print ws v ++ after)
      × (passes is_scalar_byte after ≡ false)

  -- What follows the value before these members.
  unfoldable pub after_text : Members → Bytes → Bytes
  after_text no_members close = ws ++ close
  after_text (member k v ms) close =
      b','
      ∷ (ws
          ++ (print_string k
              ++ (ws ++ (b':' ∷ (ws ++ (print ws v ++ (ws ++ after_text ms close)))))))

  -- The members from a key on, with the rest of the input.
  abbrev pub fields : List Piece → Json → Members → Bytes → Bytes
  fields k v ms close =
      ws ++ (print_string k ++ (ws ++ (b':' ∷ (ws ++ (print ws v ++ (ws ++ after_text ms close))))))

  pub after_text-print_members :
      (ms : Members) (close : Bytes) → print_members ws false ms ++ close ≡ after_text ms close
  unfolding print after_text
  after_text-print_members no_members close = refl
  after_text-print_members (member k v ms) close =
      simp (append_assoc, after_text-print_members ms close) refl

loop-found :
    (fuel : ℕ) (input field : Bytes) (i j : ℕ)
    → field_round input field i ≡ ok (found j)
    → field_loop (suc fuel) input field i ≡ some (ok j)
unfolding field_loop
loop-found fuel input field i j h = rw (h, field_loop) refl

loop-err :
    (fuel : ℕ) (input field : Bytes) (i : ℕ) (e : JsonError)
    → field_round input field i ≡ err e
    → field_loop (suc fuel) input field i ≡ some (err e)
unfolding field_loop
loop-err fuel input field i e h = rw (h, field_loop) refl

loop-next :
    (fuel : ℕ) (input field : Bytes) (i j : ℕ)
    → field_round input field i ≡ ok (next j)
    → field_loop (suc fuel) input field i ≡ field_loop fuel input field j
unfolding field_loop
loop-next fuel input field i j h = rw (h, field_loop) refl

round-key :
    (input field key : Bytes) (i j : ℕ)
    → field_key input i ≡ ok (key, j)
    → field_round input field i ≡ (if eq_bytes key field then ok (found j) else after_value input j)
unfolding field_round
round-key input field key i j h = rw h refl

all-append :
    (p : ℕ → Bool) (xs ys : Bytes) → all p xs ≡ true → all p ys ≡ true → all p (xs ++ ys) ≡ true
all-append p [] ys h k = k
all-append p (x ∷ xs) ys h k = ground (arith, all-append p xs ys)

module _ (ws : Bytes) (ws-Space : all is_json_ws ws ≡ true) where
  print-not_space :
      (v : Json) (more : Bytes) → IsJson v → passes is_json_ws (print ws v ++ more) ≡ false
  unfolding print print_string
  print-not_space null more h = refl
  print-not_space (boolean true) more h = refl
  print-not_space (boolean false) more h = refl
  print-not_space (number []) more h = absurd h
  print-not_space (number (c ∷ cs)) more (h, hs) = ground arith
  print-not_space (string ps) more h = refl
  print-not_space (array xs) more h = refl
  print-not_space (object ms) more h = refl

  pub space-not_scalar :
      (xs more : Bytes)
      → all is_json_ws xs ≡ true
      → passes is_scalar_byte more ≡ false
      → passes is_scalar_byte (xs ++ more) ≡ false
  space-not_scalar [] more s h = h
  space-not_scalar (x ∷ xs) more s h = ground arith

  after_text-not_scalar :
      (ms : Members) (trail : Bytes)
      → passes is_scalar_byte (after_text ws ms (b'}' ∷ trail)) ≡ false
  unfolding after_text
  after_text-not_scalar no_members trail = space-not_scalar ws (b'}' ∷ trail) ws-Space refl
  after_text-not_scalar (member k v ms) trail = refl

  -- A comma and the next key, or the bracket, after a value and white space.
  after_value-print :
      (input : Bytes) (i : ℕ) (v : Json) (xs : Bytes) (c : ℕ) (more : Bytes)
      → drop i input ≡ print ws v ++ (xs ++ (c ∷ more))
      → IsJson v
      → all is_json_ws xs ≡ true
      → (c == b',') || (c == b'}') ≡ true
      → (j : ℕ) × (after_value input i
          ≡ (if c == b',' then ok (next (j + 1)) else err field_missing))
        × (i ≤ j)
        × (drop (j + 1) input ≡ more)
  unfolding after_value
  after_value-print input i v xs c more h hv s hc =
      let here = i + length (print ws v) in
      let not_scalar : passes is_scalar_byte (c ∷ more) ≡ false = ground arith in
      let not_space : passes is_json_ws (c ∷ more) ≡ false = ground arith in
      let ended : json_value_end input i ≡ ok here =
        ap (λ zs. value_end zs i) h
        ∙ value_end-print ws ws-Space v (xs ++ (c ∷ more)) i hv
            (space-not_scalar xs (c ∷ more) s not_scalar) in
      let d₁ = drop-past input i (print ws v) (xs ++ (c ∷ more)) h in
      let e = skip_json_ws-past input here xs (c ∷ more) d₁ s not_space in
      let d₂ = drop-past input here xs (c ∷ more) d₁ in
      let d₃ = drop-past input (here + length xs) (c ∷ []) more d₂ in
      let comma_next = next_is-here input (here + length xs) c more b',' d₂ in
      let brace_next = next_is-here input (here + length xs) c more b'}' d₂ in
      (here + length xs, rw (ended, e, comma_next, brace_next) (ground arith), omega arith, d₃)

  pub field_loop-print :
      (k : List Piece) (v : Json) (ms : Members) (fuel : ℕ) (input field : Bytes) (i : ℕ)
      (trail : Bytes)
      → drop i input ≡ fields ws k v ms (b'}' ∷ trail)
      → AreMembers (member k v ms)
      → KeysFit (member k v ms)
      → length input < fuel + i
      → 0 < fuel
      → Finds ws input (lookup field (member k v ms)) (in_fuel (field_loop fuel input field i))
  unfolding lookup after_text
  field_loop-print k v ms zero input field i trail h hm fit f z = absurd (omega arith)
  field_loop-print k v no_members (suc fuel) input field i trail h (hk, hv, hs) (fit, fits) f z =
      let more = ws ++ (ws ++ b'}' ∷ trail) in
      let (j, key, d, _) =
        field_key-print ws ws-Space input i k (print ws v ++ more) h hk fit
          (print-not_space v more hv) in
      let round = round-key input field (meanings k) i j key in
      let twice = all-append is_json_ws ws ws ws-Space ws-Space in
      let d₂ = d ∙ ap (◌++◌ (print ws v)) (sym (append_assoc ws ws (b'}' ∷ trail))) in
      elim (Bool-cases (eq_bytes (meanings k) field)) [
        | inl e ↦
            rw (e, loop-found fuel input field i j (round ∙ rw e refl))
              (
                j,
                more,
                refl,
                d,
                space-not_scalar ws (ws ++ b'}' ∷ trail) ws-Space
                    (space-not_scalar ws (b'}' ∷ trail) ws-Space refl),
              )
        | inr e ↦
            let (_, after, _, _) =
              after_value-print input j v (ws ++ ws) b'}' trail d₂ hv twice refl in
            rw (e, loop-err fuel input field i field_missing (round ∙ rw e after)) refl
      ]
  field_loop-print k v (member k' v' ms) (suc fuel) input field i trail h (hk, hv, hs) (fit, fits) f
        z =
      let more = ws ++ (b',' ∷ fields ws k' v' ms (b'}' ∷ trail)) in
      let (j, key, d, _) =
        field_key-print ws ws-Space input i k (print ws v ++ more) h hk fit
          (print-not_space v more hv) in
      let round = round-key input field (meanings k) i j key in
      elim (Bool-cases (eq_bytes (meanings k) field)) [
        | inl e ↦
            rw (e, loop-found fuel input field i j (round ∙ rw e refl))
              (
                j,
                more,
                refl,
                d,
                space-not_scalar ws (b',' ∷ fields ws k' v' ms (b'}' ∷ trail)) ws-Space refl,
              )
        | inr e ↦
            let (j', after, _, d') =
              after_value-print input j v ws b',' (fields ws k' v' ms (b'}' ∷ trail)) d hv ws-Space
                refl in
            let step = round ∙ rw e after in
            let (low, high) = field_round-next input field i (j' + 1) step in
            rw (e, loop-next fuel input field i (j' + 1) step)
              (field_loop-print k' v' ms fuel input field (j' + 1) trail d' hs fits (omega arith)
                (omega arith))
      ]

  pub empty-missing :
      (input field : Bytes) (i fuel : ℕ) (trail : Bytes)
      → drop i input ≡ ws ++ b'}' ∷ trail
      → field_loop (suc fuel) input field i ≡ some (err field_missing)
  unfolding field_round field_key
  empty-missing input field i fuel trail h =
      let e = skip_json_ws-past input i ws (b'}' ∷ trail) h ws-Space refl in
      let d = drop-past input i ws (b'}' ∷ trail) h in
      let brace = next_is-here input (i + length ws) b'}' trail b'}' d in
      loop-err fuel input field i field_missing (rw (e, brace) refl)
