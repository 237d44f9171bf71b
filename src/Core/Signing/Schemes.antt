-- ===== src/Core/Signing/Schemes.antt =====
-- The names of the schemes.
use avault.Prelude.{◌≡◌, refl, ◌↔◌, arith}
use avault.Prelude.Bytes.{Bytes, eq_bytes, eq_bytes_iff}
use avault.Prelude.Result.{ok}
use avault.Core.Signing.{
  SignatureScheme, ecdsa_recoverable, ecdsa_der, schnorr_bip340, schnorr_bip341_keypath, as_str,
  from_str,
}

from_str-as_str : (s : SignatureScheme) → from_str (as_str s) ≡ ok s
unfolding from_str eq_bytes
from_str-as_str ecdsa_recoverable = refl
from_str-as_str ecdsa_der = refl
from_str-as_str schnorr_bip340 = refl
from_str-as_str schnorr_bip341_keypath = refl

from_str-name : (value : Bytes) (s : SignatureScheme) → from_str value ≡ ok s → value ≡ as_str s
unfolding from_str
from_str-name value s h = ground (
  arith,
  (eq_bytes_iff value (as_str ecdsa_recoverable)).0,
  (eq_bytes_iff value (as_str ecdsa_der)).0,
  (eq_bytes_iff value (as_str schnorr_bip340)).0,
  (eq_bytes_iff value (as_str schnorr_bip341_keypath)).0,
)

-- A text is read as a scheme just where it is the name of that scheme.
pub from_str-as_str_iff :
    (value : Bytes) (s : SignatureScheme) → (from_str value ≡ ok s) ↔ (value ≡ as_str s)
from_str-as_str_iff value s = (from_str-name value s, λ e. rw e (from_str-as_str s))
