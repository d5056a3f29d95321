-- ===== src/Runs/Sniff.antt =====
-- Client hellos for the host a.com.
use v2ray.Prelude.{ℕ, ◌≡◌, refl, none, some, List, [], ◌∷◌, ◌++◌, is_utf8}
use v2ray.Common.Result.{ok}
use v2ray.Common.Result.Holds.{Holds}
use v2ray.App.Sniff.{
  tls_sni, session_at, suites_at, compression_at, extensions_at, sni_loop, one_extension,
  sni_extension, sni_name, u16_at,
}
use v2ray.App.Sniff.Total.{IsName, tls_sni-Holds}

abbrev host : List ℕ
host = b'a' ∷ b'.' ∷ b'c' ∷ b'o' ∷ b'm' ∷ []

abbrev eight : List ℕ
eight = 7 ∷ 7 ∷ 7 ∷ 7 ∷ 7 ∷ 7 ∷ 7 ∷ 7 ∷ []

-- A hello with an empty session id, of which the length is written as given.
abbrev hello : List ℕ → List ℕ
hello session =
    22
    ∷ 3
    ∷ 1
    ∷ 0
    ∷ 61
    ∷ 1
    ∷ 0
    ∷ 0
    ∷ 57
    ∷ 3
    ∷ 3
    ∷ (eight
        ++ (eight
            ++ (eight
                ++ (eight
                    ++ (session
                        ++ (0 ∷ 2 ∷ 19 ∷ 1 ∷ 1 ∷ 0 ∷ 0 ∷ 14 ∷ 0 ∷ 0 ∷ 0 ∷ 10 ∷ 0 ∷ 8 ∷ 0 ∷ 0 ∷ 5
                            ∷ host))))))

tls_sni-Holds_example : Holds (IsName (hello (0 ∷ []))) (tls_sni (hello (0 ∷ [])))
tls_sni-Holds_example = tls_sni-Holds (hello (0 ∷ []))

-- As TLS writes it, with a length of one byte, the name is not found.
missed : tls_sni (hello (0 ∷ [])) ≡ ok none
unfolding tls_sni session_at suites_at compression_at u16_at
missed = refl

-- With three bytes it is.
found : tls_sni (hello (0 ∷ 0 ∷ 0 ∷ [])) ≡ ok (some host)
unfolding tls_sni session_at suites_at compression_at extensions_at sni_loop one_extension
    sni_extension sni_name u16_at is_utf8
found = refl
