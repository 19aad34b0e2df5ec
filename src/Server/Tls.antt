-- ===== src/Server/Tls.antt =====
-- When the client of HariKube uses TLS.
use api_extension.Prelude.{
  ◌≡◌, ◌↔◌, refl, false, none, List, [], ◌∷◌, arith, All, Result, ok, ◌⊎◌, inl, inr, Result-cases,
}
use api_extension.Text.{Text, text, eq_iff}
use api_extension.Text.Strings.{has_prefix}
use api_extension.Server.{TlsInfo, any_https, client_config}

-- A URL that does not ask for TLS.
abbrev pub IsPlain : Text → Type 0
IsPlain url = has_prefix url (text "https://") ≡ false

pub any_https-eq-false : (urls : List Text) → (any_https urls ≡ false) ↔ All IsPlain urls
unfolding any_https
any_https-eq-false [] = (λ h. tt, λ h. refl)
any_https-eq-false (url ∷ urls) =
    let ih = any_https-eq-false urls in (λ h. ground (arith, ih), λ (h, k). ground (arith, ih))

-- One of the three files of a TLS configuration is not named.
abbrev pub IsPartial : TlsInfo → Type 0
IsPartial info = (info.cert_file ≡ []) ⊎ ((info.key_file ≡ []) ⊎ (info.trusted_ca_file ≡ []))

-- The client does without TLS just when a file of the configuration is not named and no server has an
-- https URL. So an https URL is never served without the three files.
pub client_config-eq-none_iff :
    {Config : Type 0} (tls : TlsInfo → Result Text Config) (info : TlsInfo) (urls : List Text)
    → (client_config tls info urls ≡ ok none) ↔ (IsPartial info × All IsPlain urls)
unfolding client_config
client_config-eq-none_iff tls info urls =
    let plain = any_https-eq-false urls in
    (
      λ h. elim (Result-cases (tls info)) [
        | inl (config, e) ↦ ground (
          arith,
          plain,
          eq_iff info.cert_file [],
          eq_iff info.key_file [],
          eq_iff info.trusted_ca_file [],
        )
        | inr (x, e) ↦ ground (
          arith,
          plain,
          eq_iff info.cert_file [],
          eq_iff info.key_file [],
          eq_iff info.trusted_ca_file [],
        )
      ],
      λ (h, k). ground (
        arith,
        plain,
        eq_iff info.cert_file [],
        eq_iff info.key_file [],
        eq_iff info.trusted_ca_file [],
      ),
    )
