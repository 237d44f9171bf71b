-- ===== src/Agent/Use/Secrets.antt =====
-- The secrets of one request: `open_env_secrets_for_agent` and `open_named_secrets_for_agent`.
use avault.Prelude.{
  ◌≡◌, refl, inl, inr, false, Option, none, some, List, [], ◌∷◌, arith, Option-cases, any,
}
use avault.Prelude.Bytes.{Bytes, eq_bytes}
use avault.Prelude.Result.{
  Result, ok, ◌>>=◌, ◌>>◌, bail_if, bind-eq-ok, ok-injective, bail_if-eq-ok, map_err-eq-ok,
}
use mathlib.Core.Path.{subst}
use avault.Core.Crypto.{Crypto, Sealed}
use avault.Core.Envelope.{open_sealed}
use avault.Core.Protected.{open_with_dek}
use avault.Prelude.Maps.{lookup}
use avault.Agent.Grants.{GrantEntry, deliver, dek_key_eq}
use avault.Agent.GrantRequest.{Hex}
use avault.Agent.Use.{
  UseError, core, duplicate_name, SecretTier, standard, protected, EnvSecretInput, NamedSecretInput,
  OpenedSecret, validate_shell_name, reject_agent_one_shot_secret_fields, open_secret_with_grant,
  open_agent_secret,
}

abbrev pub target_name : NamedSecretInput → Bytes
target_name secret = elim secret.key [
  | some key ↦ key
  | none ↦ elim secret.env [ some env ↦ env | none ↦ secret.name ]
]

module _ (c : Crypto) (hex : Hex) where
  unfoldable pub open_env_seen :
      List Bytes
      → List EnvSecretInput
      → GrantEntry
      → Option Bytes
      → Result UseError (List OpenedSecret)
  open_env_seen seen [] grant standard_master = ok []
  open_env_seen seen (secret ∷ secrets) grant standard_master = do
    reject_agent_one_shot_secret_fields secret.dek_blindbox secret.approval
    validate_shell_name secret.env
    bail_if (any (eq_bytes secret.env) seen) duplicate_name
    plaintext ←
        open_agent_secret c hex secret.name secret.tier secret.envelope grant standard_master
    opened ← open_env_seen (secret.env ∷ seen) secrets grant standard_master
    ok (record { name = secret.env; plaintext = plaintext } ∷ opened)

  unfoldable pub open_env_secrets_for_agent :
      List EnvSecretInput → GrantEntry → Option Bytes → Result UseError (List OpenedSecret)
  unfolding open_env_seen
  open_env_secrets_for_agent secrets grant standard_master =
      open_env_seen [] secrets grant standard_master

  unfoldable pub open_named_seen :
      List Bytes
      → List NamedSecretInput
      → GrantEntry
      → Option Bytes
      → Result UseError (List OpenedSecret)
  open_named_seen seen [] grant standard_master = ok []
  open_named_seen seen (secret ∷ secrets) grant standard_master = do
    reject_agent_one_shot_secret_fields secret.dek_blindbox secret.approval
    validate_shell_name (target_name secret)
    bail_if (any (eq_bytes (target_name secret)) seen) duplicate_name
    plaintext ←
        open_agent_secret c hex secret.name secret.tier secret.envelope grant standard_master
    opened ← open_named_seen (target_name secret ∷ seen) secrets grant standard_master
    ok (record { name = target_name secret; plaintext = plaintext } ∷ opened)

  unfoldable pub open_named_secrets_for_agent :
      List NamedSecretInput → GrantEntry → Option Bytes → Result UseError (List OpenedSecret)
  unfolding open_named_seen
  open_named_secrets_for_agent secrets grant standard_master =
      open_named_seen [] secrets grant standard_master

  -- One secret is opened as its tier says: a standard one by the master key, a protected one by a
  -- key that the grant holds for the delivery of just that name.
  abbrev pub OpensAs : Bytes → SecretTier → Sealed → GrantEntry → Option Bytes → Bytes → Type 0
  OpensAs name standard envelope grant standard_master plaintext =
      (master : Bytes) × (standard_master ≡ some master)
      × (open_sealed c master name envelope ≡ ok plaintext)
  OpensAs name protected envelope grant standard_master plaintext =
      (dek : Bytes) × (lookup
          (record { purpose = deliver; name = name; scheme = none; digest_hex = none }) grant.deks
        ≡ some dek)
      × (open_with_dek c dek name envelope ≡ ok plaintext)

  open_agent_secret-OpensAs :
      (name : Bytes) (tier : SecretTier) (envelope : Sealed) (grant : GrantEntry)
      (standard_master : Option Bytes) {plaintext : Bytes}
      → open_agent_secret c hex name tier envelope grant standard_master ≡ ok plaintext
      → OpensAs name tier envelope grant standard_master plaintext
  unfolding open_agent_secret open_secret_with_grant
  open_agent_secret-OpensAs name standard envelope grant none h = absurd (cc)
  open_agent_secret-OpensAs name standard envelope grant (some master) h =
      (master, refl, map_err-eq-ok core (open_sealed c master name envelope) h)
  open_agent_secret-OpensAs name protected envelope grant standard_master h =
      elim (Option-cases (
        lookup (record { purpose = deliver; name = name; scheme = none; digest_hex = none })
          grant.deks)) [
            | inl n ↦ absurd (ground arith)
            | inr (dek, e) ↦
                (dek, e, map_err-eq-ok core (open_with_dek c dek name envelope) (ground arith))
          ]

  -- Each opened secret belongs to the input at its place, under its variable, with no name twice.
  abbrev pub Opened :
      List Bytes → List EnvSecretInput → GrantEntry → Option Bytes → List OpenedSecret → Type 0
  Opened seen [] grant standard_master [] = Unit
  Opened seen (i ∷ inputs) grant standard_master (o ∷ opened) =
      (o.name ≡ i.env)
      × (validate_shell_name i.env ≡ ok tt)
      × (any (eq_bytes i.env) seen ≡ false)
      × OpensAs i.name i.tier i.envelope grant standard_master o.plaintext
      × Opened (i.env ∷ seen) inputs grant standard_master opened
  Opened _ _ _ _ _ = ⊥

  open_env_seen-Opened :
      (seen : List Bytes) (inputs : List EnvSecretInput) (grant : GrantEntry)
      (standard_master : Option Bytes) {opened : List OpenedSecret}
      → open_env_seen seen inputs grant standard_master ≡ ok opened
      → Opened seen inputs grant standard_master opened
  unfolding open_env_seen
  open_env_seen-Opened seen [] grant standard_master h =
      subst (Opened seen [] grant standard_master) (ok-injective h) tt
  open_env_seen-Opened seen (i ∷ inputs) grant standard_master h =
      let (u, a, h1) =
        bind-eq-ok (reject_agent_one_shot_secret_fields i.dek_blindbox i.approval) _ h in
      let (u', valid, h2) = bind-eq-ok (validate_shell_name i.env) _ h1 in
      let (u'', fresh, h3) = bind-eq-ok (bail_if (any (eq_bytes i.env) seen) duplicate_name) _ h2 in
      let (plaintext, opens, h4) =
        bind-eq-ok (open_agent_secret c hex i.name i.tier i.envelope grant standard_master) _ h3 in
      let (rest, later, h5) =
        bind-eq-ok (open_env_seen (i.env ∷ seen) inputs grant standard_master) _ h4 in
      subst (Opened seen (i ∷ inputs) grant standard_master) (ok-injective h5) (
        refl,
        valid,
        bail_if-eq-ok (any (eq_bytes i.env) seen) duplicate_name fresh,
        open_agent_secret-OpensAs i.name i.tier i.envelope grant standard_master opens,
        open_env_seen-Opened (i.env ∷ seen) inputs grant standard_master later,
      )

  -- The variables that are opened are those of the inputs in order, under valid names of which
  -- none stands twice, a standard secret by the master key and a protected one by the key that the
  -- grant holds for the delivery of its name.
  pub open_env_secrets_for_agent-Opened :
      (inputs : List EnvSecretInput) (grant : GrantEntry) (standard_master : Option Bytes)
      {opened : List OpenedSecret}
      → open_env_secrets_for_agent inputs grant standard_master ≡ ok opened
      → Opened [] inputs grant standard_master opened
  unfolding open_env_secrets_for_agent
  open_env_secrets_for_agent-Opened inputs grant standard_master h =
      open_env_seen-Opened [] inputs grant standard_master h
