-- ===== src/Inject/Dotenv.antt =====
-- A dotenv file reads back as a shell reads it: the names, and the values byte for byte.
use avault.Prelude.{
  ℕ, zero, suc, ◌≤◌, ◌≡◌, refl, sym, ap, ◌∙◌, inl, inr, Bool, true, false, not, ◌&&◌, Option, none,
  some, List, [], ◌∷◌, ◌++◌, append_assoc, arith, ◌==◌, if◌then◌else◌, Bool-cases, length, all, All,
}
use avault.Prelude.Bytes.{Bytes}
use avault.Prelude.Result.{ok, bind-eq-ok, ok-injective}
use mathlib.Core.Path.{subst}
use avault.Agent.Use.{OpenedSecret, is_name_byte, validate_shell_name}
use avault.Inject.{secret_utf8, shell_escape, write_shell_quoted, render_dotenv}

-- A shell word: unquoted, between apostrophes, or after a backslash.
pub data Mode : Type 0 where
  plain quoted after_backslash : Mode

abbrev next_mode : Mode → ℕ → Mode
next_mode plain c = if c == 39 then quoted else if c == 92 then after_backslash else plain
next_mode quoted c = if c == 39 then plain else quoted
next_mode after_backslash c = plain

abbrev emits : Mode → ℕ → Bool
emits plain c = not (c == 39) && not (c == 92)
emits quoted c = not (c == 39)
emits after_backslash c = true

abbrev ends_word : Mode → ℕ → Bool
ends_word plain c = c == 10
ends_word quoted c = false
ends_word after_backslash c = false

abbrev emit : Bool → ℕ → Option (Bytes × Bytes) → Option (Bytes × Bytes)
emit b c none = none
emit b c (some (word, rest)) = some (if b then c ∷ word else word, rest)

-- The word up to the end of its line, and what follows.
unfoldable pub read_word : Mode → Bytes → Option (Bytes × Bytes)
read_word mode [] = none
read_word mode (c ∷ cs) =
    let rest = read_word (next_mode mode c) cs in
    if ends_word mode c then some ([], cs) else emit (emits mode c) c rest

unfoldable pub read_name : Bytes → Option (Bytes × Bytes)
read_name [] = none
read_name (c ∷ cs) = let rest = read_name cs in if c == 61 then some ([], cs) else emit true c rest

abbrev with_line :
    Bytes
    → Option (Bytes × Bytes)
    → (Bytes → Option (List OpenedSecret))
    → Option (List OpenedSecret)
with_line name none k = none
with_line name (some (value, rest)) k = elim (k rest) [
  | none ↦ none
  | some lines ↦ some (record { name = name; plaintext = value } ∷ lines)
]

abbrev with_name :
    Option (Bytes × Bytes) → (Bytes → Option (List OpenedSecret)) → Option (List OpenedSecret)
with_name none k = none
with_name (some (name, rest)) k = with_line name (read_word plain rest) k

-- As many lines as there are, `fuel` at most.
unfoldable pub read_dotenv : ℕ → Bytes → Option (List OpenedSecret)
read_dotenv zero [] = some []
read_dotenv zero (c ∷ cs) = none
read_dotenv (suc fuel) [] = some []
read_dotenv (suc fuel) (c ∷ cs) = with_name (read_name (c ∷ cs)) (read_dotenv fuel)

read_word-escape :
    (value rest : Bytes)
    → read_word quoted (shell_escape value ++ (39 ∷ 10 ∷ rest)) ≡ some (value, rest)
unfolding read_word
read_word-escape [] rest = refl
read_word-escape (c ∷ cs) rest = elim (Bool-cases (c == 39)) [
  | inl e ↦ ground (arith, read_word-escape cs rest)
  | inr e ↦ ground (arith, read_word-escape cs rest)
]

read_word-quoted :
    (value rest : Bytes)
    → read_word plain (write_shell_quoted value ++ (10 ∷ rest)) ≡ some (value, rest)
unfolding read_word write_shell_quoted
read_word-quoted value rest =
    rw (append_assoc (shell_escape value) (39 ∷ []) (10 ∷ rest), read_word-escape value rest) refl

read_name-name :
    (cs rest : Bytes) → all is_name_byte cs ≡ true → read_name (cs ++ 61 ∷ rest) ≡ some (cs, rest)
unfolding read_name
read_name-name [] rest h = refl
read_name-name (c ∷ cs) rest h = ground (arith, read_name-name cs rest)

valid_name : (name : Bytes) → validate_shell_name name ≡ ok tt → all is_name_byte name ≡ true
unfolding validate_shell_name
valid_name [] h = cc
valid_name (c ∷ cs) h = ground arith

secret_utf8-same : (bytes : Bytes) {value : Bytes} → secret_utf8 bytes ≡ ok value → bytes ≡ value
unfolding secret_utf8
secret_utf8-same bytes h = ground arith

read_dotenv-empty : (fuel : ℕ) → read_dotenv fuel [] ≡ some []
unfolding read_dotenv
read_dotenv-empty zero = refl
read_dotenv-empty (suc fuel) = refl

read_dotenv-line :
    (fuel : ℕ) (name value rest : Bytes) (lines : List OpenedSecret)
    → validate_shell_name name ≡ ok tt
    → read_dotenv fuel rest ≡ some lines
    → read_dotenv (suc fuel) (name ++ (61 ∷ (write_shell_quoted value ++ (10 ∷ rest))))
      ≡ some (record { name = name; plaintext = value } ∷ lines)
unfolding read_dotenv validate_shell_name
read_dotenv-line fuel [] value rest lines n h = absurd (cc)
read_dotenv-line fuel (c ∷ cs) value rest lines n h =
    rw
      (
        read_name-name (c ∷ cs) (write_shell_quoted value ++ (10 ∷ rest)) (valid_name (c ∷ cs) n),
        read_word-quoted value rest,
        h,
      )
      refl

-- Each name is a valid name of a shell variable.
abbrev pub Named : List OpenedSecret → Type 0
Named = All (λ s. validate_shell_name s.name ≡ ok tt)

-- A rendered dotenv file, read the way a shell reads it, gives back the names and the values byte
-- for byte, if the names are valid names of shell variables.
pub read_dotenv-render_dotenv :
    (fuel : ℕ) (secrets : List OpenedSecret) {out : Bytes}
    → length secrets ≤ fuel
    → Named secrets
    → render_dotenv secrets ≡ ok out
    → read_dotenv fuel out ≡ some secrets
unfolding read_dotenv render_dotenv
read_dotenv-render_dotenv fuel [] l n h =
    subst (λ out. read_dotenv fuel out ≡ some []) (ok-injective h) (read_dotenv-empty fuel)
read_dotenv-render_dotenv zero (s ∷ secrets) l n h = absurd (omega arith)
read_dotenv-render_dotenv (suc fuel) (s ∷ secrets) l (n, ns) h =
    let (value, v, h1) = bind-eq-ok (secret_utf8 s.plaintext) _ h in
    let (rest, r, h2) = bind-eq-ok (render_dotenv secrets) _ h1 in
    let later = read_dotenv-render_dotenv fuel secrets (omega arith) ns r in
    subst (λ o. read_dotenv (suc fuel) o ≡ some (s ∷ secrets)) (ok-injective h2)
      (read_dotenv-line fuel s.name value rest secrets n later
        ∙ ap (λ (p : Bytes). some (record { name = s.name; plaintext = p } ∷ secrets))
            (sym (secret_utf8-same s.plaintext v)))
