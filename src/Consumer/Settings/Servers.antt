-- ===== src/Consumer/Settings/Servers.antt =====
-- What is known of the inference servers that the settings name.
use text.Mathlib.Text.{starts_with}
use aristote_dispatcher.Common.{
  ℕ, ◌≡◌, refl, subst, string_eq, option_eq, true, false, Option, none, some, List, [], ◌∷◌, ◌==◌,
  inl, inr, Bool-cases,
}
use aristote_dispatcher.Common.Dict.{or_default}
use aristote_dispatcher.Common.Exec.{Result, ok, raised}
use aristote_dispatcher.Consumer.Exceptions.{Exception, value_error}
use aristote_dispatcher.Consumer.Settings.{
  RawServer, ServerConfig, ConfiguredServer, with_config, configured, parse_server, cons_ok,
  parse_servers, vllm_servers,
}

-- The server was read from that key and that object: an http url with a host, an organization that is not the
-- empty text, though it may be null, and the configured number of parallel requests, which may be null too, or
-- the default one where the key is missing.
abbrev pub IsReadFrom : ℕ → RawServer → ServerConfig → ConfiguredServer → Type 0
IsReadFrom default_max raw config s =
    (raw.config ≡ some config)
    × (starts_with raw.scheme "http" ≡ true)
    × ((raw.netloc == "") ≡ false)
    × ((s.organization == some "") ≡ false)
    × (s.organization ≡ or_default config.organization (some ""))
    × (s.url ≡ raw.url)
    × (s.token ≡ config.token)
    × (s.max_parallel_requests ≡ or_default config.max_parallel_requests (some default_max))

-- One server for each key, in their order.
abbrev pub AreReadFrom : ℕ → List RawServer → List ConfiguredServer → Type 0
AreReadFrom default_max [] [] = Unit
AreReadFrom default_max [] (s ∷ servers) = ⊥
AreReadFrom default_max (raw ∷ raws) [] = ⊥
AreReadFrom default_max (raw ∷ raws) (s ∷ servers) =
    ((config : ServerConfig) × IsReadFrom default_max raw config s)
    × AreReadFrom default_max raws servers

abbrev read_server : ℕ → RawServer → ServerConfig → ConfiguredServer
read_server default_max raw config = record {
  url = raw.url;
  token = config.token;
  organization = or_default config.organization (some "");
  max_parallel_requests = or_default config.max_parallel_requests (some default_max);
}

not_ok :
    (s : ConfiguredServer)
    → Path (Result Exception ConfiguredServer) (raised value_error) (ok s)
    → ⊥
not_ok s h = cc

with_config-IsReadFrom :
    (default_max : ℕ) (raw : RawServer) (config : ServerConfig) (s : ConfiguredServer)
    → raw.config ≡ some config
    → with_config default_max raw config ≡ ok s
    → IsReadFrom default_max raw config s
with_config-IsReadFrom default_max raw config s known h =
    elim (Bool-cases (starts_with raw.scheme "http")) [
      | inr other ↦ absurd (not_ok s (rw other at h))
      | inl http ↦ elim (Bool-cases (raw.netloc == "")) [
        | inl nowhere ↦ absurd (not_ok s (rw (http, nowhere) at h))
        | inr host ↦ elim (Bool-cases (or_default config.organization (some "") == some "")) [
          | inl nobody ↦ absurd (not_ok s (rw (http, host, nobody) at h))
          | inr somebody ↦
              let read : Path (Result Exception ConfiguredServer)
                  (ok (read_server default_max raw config)) (ok s) =
                rw (http, host, somebody) at h in
              let same : read_server default_max raw config ≡ s = cc in
              subst (IsReadFrom default_max raw config) same
                (known, http, host, somebody, refl, refl, refl, refl)
        ]
      ]
    ]

configured-IsReadFrom :
    (default_max : ℕ) (raw : RawServer) (config : Option ServerConfig) (s : ConfiguredServer)
    → raw.config ≡ config
    → configured default_max raw config ≡ ok s
    → (c : ServerConfig) × IsReadFrom default_max raw c s
configured-IsReadFrom default_max raw none s known h = absurd (not_ok s h)
configured-IsReadFrom default_max raw (some c) s known h =
    (c, with_config-IsReadFrom default_max raw c s known h)

cons_ok-AreReadFrom :
    (default_max : ℕ) (raw : RawServer) (raws : List RawServer) (servers : List ConfiguredServer)
    (first : Result Exception ConfiguredServer) (rest : Result Exception (List ConfiguredServer))
    → parse_server default_max raw ≡ first
    → ((others : List ConfiguredServer) → rest ≡ ok others → AreReadFrom default_max raws others)
    → cons_ok first rest ≡ ok servers
    → AreReadFrom default_max (raw ∷ raws) servers
unfolding parse_server
cons_ok-AreReadFrom default_max raw raws servers (raised e) rest f g h = cc
cons_ok-AreReadFrom default_max raw raws servers (ok s) (raised e) f g h = cc
cons_ok-AreReadFrom default_max raw raws [] (ok s) (ok others) f g h = cc
cons_ok-AreReadFrom default_max raw raws (t ∷ servers) (ok s) (ok others) f g h =
    let first : s ≡ t = cc in
    let rest : others ≡ servers = cc in
    let read = configured-IsReadFrom default_max raw raw.config s refl f in
    (
      subst (λ x. (c : ServerConfig) × IsReadFrom default_max raw c x) first read,
      subst (AreReadFrom default_max raws) rest (g others refl),
    )

parse_servers-AreReadFrom :
    (default_max : ℕ) (raws : List RawServer) (servers : List ConfiguredServer)
    → parse_servers default_max raws ≡ ok servers
    → AreReadFrom default_max raws servers
unfolding parse_servers
parse_servers-AreReadFrom default_max [] [] h = tt
parse_servers-AreReadFrom default_max [] (s ∷ servers) h = cc
parse_servers-AreReadFrom default_max (raw ∷ raws) servers h =
    cons_ok-AreReadFrom default_max raw raws servers (parse_server default_max raw)
      (parse_servers default_max raws) refl (parse_servers-AreReadFrom default_max raws) h

-- Where the servers of the settings are read without an exception, there is one for each key, in the order
-- of the keys. Its key is an http url with a host, which is the server's url; its organization is that of its
-- object, null too, and not the empty text; its token is that of its object; its number of parallel requests is
-- that of its object, null too, or the one of the settings where the object has none.
pub vllm_servers-AreReadFrom :
    (default_max : ℕ) (raws : List RawServer) (servers : List ConfiguredServer)
    → vllm_servers default_max (some raws) ≡ ok servers
    → AreReadFrom default_max raws servers
unfolding vllm_servers
vllm_servers-AreReadFrom default_max raws servers h =
    parse_servers-AreReadFrom default_max raws servers h
