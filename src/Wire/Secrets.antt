-- ===== src/Wire/Secrets.antt =====
-- What the helper is sent is what it delivers.
use avault.Prelude.{
  ℕ, ◌^◌, ◌≤◌, ◌<◌, ◌≡◌, refl, sym, ap, ◌∙◌, true, false, List, [], ◌∷◌, ◌++◌, append_assoc, arith,
  ltb, leb, ◌==◌, length, all, length-append, drop-append, take-append, All,
}
use avault.Prelude.Bytes.{Bytes, eq_bytes, eq_bytes_iff}
use avault.Prelude.Result.{Result, ok, guard, bail_if, bind-eq-ok, ok-injective}
use mathlib.Core.Path.{subst}
use avault.BlindBox.{be_bytes}
use avault.Inject.{utf8_from, is_utf8}
use avault.Agent.Use.{OpenedSecret, validate_shell_name, is_name_byte}
use avault.Wire.Delivery.{from_be_bytes-be_bytes}
use avault.Json.{max_stdin_secret_bytes}
use avault.Wire.Helper.{
  HelperError, no_secrets, too_many, max_agent_run_secrets, max_agent_run_env_name_bytes,
  agent_run_helper_magic, validate_env_value, validate_env_name, write_agent_run_helper_bytes,
  write_secret, write_secrets, is_empty, write_agent_run_helper_frame, read_exact,
  read_agent_run_helper_u32, read_name, read_value, read_secrets, read_agent_run_helper_frame,
}

read_exact-append : (xs rest : Bytes) → read_exact (length xs) (xs ++ rest) ≡ ok (xs, rest)
unfolding read_exact
read_exact-append xs rest =
    let fits : leb (length xs) (length (xs ++ rest)) ≡ true =
      ground (arith, length-append {0} xs rest) in
    rw (fits, take-append, drop-append) refl

read_u32-be_bytes :
    (n : ℕ) (rest : Bytes)
    → n < 2 ^ 32
    → read_agent_run_helper_u32 (be_bytes 4 n ++ rest) ≡ ok (n, rest)
unfolding read_agent_run_helper_u32
read_u32-be_bytes n rest h =
    rw (read_exact-append (be_bytes 4 n) rest) (rw (from_be_bytes-be_bytes n h) refl)

name_bytes-is_utf8 : (cs : Bytes) → all is_name_byte cs ≡ true → is_utf8 cs ≡ true
unfolding utf8_from
name_bytes-is_utf8 [] h = refl
name_bytes-is_utf8 (c ∷ cs) h =
    let ascii : ltb c 128 ≡ true = ground arith in
    rw (ascii, utf8_from) (name_bytes-is_utf8 cs (ground arith))

shell_name-is_utf8 : (name : Bytes) → validate_shell_name name ≡ ok tt → is_utf8 name ≡ true
unfolding validate_shell_name
shell_name-is_utf8 [] h = cc
shell_name-is_utf8 (c ∷ cs) h = name_bytes-is_utf8 (c ∷ cs) (ground arith)

count_positive :
    (opened : List OpenedSecret) → bail_if (is_empty opened) no_secrets ≡ ok tt → 0 < length opened
count_positive [] h = cc
count_positive (s ∷ opened) h = omega arith

-- A name and a value within the limits of the reader.
abbrev pub IsInLimits : OpenedSecret → Type 0
IsInLimits secret =
    (length secret.name ≤ max_agent_run_env_name_bytes)
    × (length secret.plaintext ≤ max_stdin_secret_bytes)

name_valid :
    (name : Bytes)
    → validate_env_name name ≡ ok tt
    → (validate_shell_name name ≡ ok tt) × (0 < length name)
unfolding validate_shell_name
name_valid [] h = cc
name_valid (c ∷ cs) h = ground arith

read_name-write :
    (name sent rest : Bytes)
    → validate_env_name name ≡ ok tt
    → write_agent_run_helper_bytes name ≡ ok sent
    → length name ≤ max_agent_run_env_name_bytes
    → read_name (sent ++ rest) ≡ ok (name, rest)
unfolding read_name write_agent_run_helper_bytes
read_name-write name sent rest v w h =
    let (valid, some_byte) = name_valid name v in
    let sent' : be_bytes 4 (length name) ++ name ≡ sent = ground (arith, w) in
    let empty : (length name == 0) ≡ false = ground arith in
    let fits : ltb max_agent_run_env_name_bytes (length name) ≡ false = ground arith in
    subst (λ s. read_name (s ++ rest) ≡ ok (name, rest)) sent'
      (rw
        (
          read_u32-be_bytes (length name) (name ++ rest) (omega arith),
          empty,
          fits,
          read_exact-append name rest,
          shell_name-is_utf8 name valid,
          v,
        )
        refl)

read_value-write :
    (value sent rest : Bytes)
    → validate_env_value value ≡ ok tt
    → write_agent_run_helper_bytes value ≡ ok sent
    → length value ≤ max_stdin_secret_bytes
    → read_value (sent ++ rest) ≡ ok (value, rest)
unfolding read_value write_agent_run_helper_bytes
read_value-write value sent rest v w h =
    let sent' : be_bytes 4 (length value) ++ value ≡ sent = ground (arith, w) in
    let fits : ltb max_stdin_secret_bytes (length value) ≡ false = ground arith in
    subst (λ s. read_value (s ++ rest) ≡ ok (value, rest)) sent'
      (rw
        (
          read_u32-be_bytes (length value) (value ++ rest) (omega arith),
          fits,
          read_exact-append value rest,
          v,
        )
        refl)

abbrev WritesAs : OpenedSecret → Bytes → Type 0
WritesAs secret first =
    (n : Bytes) × (v : Bytes) × (validate_env_name secret.name ≡ ok tt)
    × (validate_env_value secret.plaintext ≡ ok tt)
    × (write_agent_run_helper_bytes secret.name ≡ ok n)
    × (write_agent_run_helper_bytes secret.plaintext ≡ ok v)
    × (n ++ v ≡ first)

write_secret-WritesAs :
    (secret : OpenedSecret) (first : Bytes) → write_secret secret ≡ ok first → WritesAs secret first
unfolding write_secret
write_secret-WritesAs secret first h =
    let (tt, a, h₁) = bind-eq-ok (validate_env_name secret.name) _ h in
    let (tt, b, h₂) = bind-eq-ok (validate_env_value secret.plaintext) _ h₁ in
    let (n, c, h₃) = bind-eq-ok (write_agent_run_helper_bytes secret.name) _ h₂ in
    let (v, d, h₄) = bind-eq-ok (write_agent_run_helper_bytes secret.plaintext) _ h₃ in
    (n, v, a, b, c, d, ok-injective h₄)

read_secrets-write :
    (opened : List OpenedSecret) (sent rest : Bytes)
    → write_secrets opened ≡ ok sent
    → All IsInLimits opened
    → read_secrets (length opened) (sent ++ rest) ≡ ok (opened, rest)
unfolding read_secrets write_secrets
read_secrets-write [] sent rest w h =
    let nothing : [] ≡ sent = ok-injective w in
    subst
      (λ s.
        ◌≡◌ {A = Result HelperError (List OpenedSecret × Bytes)} (ok ([], s ++ rest))
          (ok ([], rest)))
      nothing refl
read_secrets-write (secret ∷ opened) sent rest w ((hn, hv), hs) =
    let (first, e, w₁) = bind-eq-ok (write_secret secret) _ w in
    let (more, e', w₂) = bind-eq-ok (write_secrets opened) _ w₁ in
    let (n, v, a, b, c, d, f) = write_secret-WritesAs secret first e in
    let parts : sent ++ rest ≡ n ++ (v ++ (more ++ rest)) =
      ap (λ t. t ++ rest) (sym (ok-injective w₂))
      ∙ ap (λ t. (t ++ more) ++ rest) (sym f)
      ∙ simp append_assoc refl in
    rw
      (
        parts,
        read_name-write secret.name n (v ++ (more ++ rest)) a c hn,
        read_value-write secret.plaintext v (more ++ rest) b d hv,
        read_secrets-write opened more rest e' hs,
      )
      refl

-- What the helper reads from the frame that it is sent are the names and values of the secrets,
-- byte for byte and in order, and no byte after the frame is taken, if the number of secrets and
-- the lengths of names and values are within the limits of the reader.
pub read_agent_run_helper_frame-write :
    (opened : List OpenedSecret) (sent rest : Bytes)
    → write_agent_run_helper_frame opened ≡ ok sent
    → length opened ≤ max_agent_run_secrets
    → All IsInLimits opened
    → read_agent_run_helper_frame (sent ++ rest) ≡ ok (opened, rest)
unfolding read_agent_run_helper_frame write_agent_run_helper_frame
read_agent_run_helper_frame-write opened sent rest w many h =
    let (tt, some_secret, w₁) = bind-eq-ok (bail_if (is_empty opened) no_secrets) _ w in
    let (tt, few, w₂) = bind-eq-ok (guard (ltb (length opened) (2 ^ 32)) too_many) _ w₁ in
    let (secrets, e, w₃) = bind-eq-ok (write_secrets opened) _ w₂ in
    let body = be_bytes 4 (length opened) ++ (secrets ++ rest) in
    let parts : sent ++ rest ≡ agent_run_helper_magic ++ body =
      ap (λ t. t ++ rest) (sym (ok-injective w₃)) in
    let magic : eq_bytes agent_run_helper_magic agent_run_helper_magic ≡ true =
      (eq_bytes_iff agent_run_helper_magic agent_run_helper_magic).1 refl in
    let positive : (length opened == 0) ≡ false =
      ground (arith, count_positive opened some_secret) in
    let in_limit : ltb max_agent_run_secrets (length opened) ≡ false = ground arith in
    rw
      (
        parts,
        read_exact-append agent_run_helper_magic body,
        magic,
        read_u32-be_bytes (length opened) (secrets ++ rest) (omega arith),
        positive,
        in_limit,
      )
      (read_secrets-write opened secrets rest e h)
