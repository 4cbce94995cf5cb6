-- ===== src/Promql/Scope.antt =====
-- internal/subresourceapi/promql_scope.go: the scope that is put into a selector.
use kubewaf.Prelude.{ℕ, ◌+◌, ◌-◌, ◌/◌, ◌%◌, ◌||◌, [], ◌∷◌, ◌++◌, ltb, ◌==◌, if◌then◌else◌}
use kubewaf.Prelude.Bytes.{Bytes, codes, trim_space}
use kubewaf.Prelude.Result.{Result, ok, err}
use kubewaf.Promql.Scan.{Error, invalid_identity}
use kubewaf.Promql.Matcher.{WafIdentity, is_empty, waf_namespace, waf_name}

hex_digit : ℕ → ℕ
hex_digit d = if ltb d 10 then b'0' + d else b'a' + (d - 10)

-- `strconv.Quote` on a byte. A byte above 0x7F is taken for a part of a printable rune.
quote_byte : ℕ → Bytes
unfolding hex_digit
quote_byte c =
    if c == b'"' || c == b'\\'
    then b'\\' ∷ c ∷ []
    else if c == 7
    then codes "\\a"
    else if c == 8
    then codes "\\b"
    else if c == 9
    then codes "\\t"
    else if c == 10
    then codes "\\n"
    else if c == 11
    then codes "\\v"
    else if c == 12
    then codes "\\f"
    else if c == 13
    then codes "\\r"
    else if ltb c 32 || c == 127
    then codes "\\x" ++ hex_digit (c / 16) ∷ hex_digit (c % 16) ∷ []
    else c ∷ []

quote_bytes : Bytes → Bytes
unfolding quote_byte
quote_bytes [] = []
quote_bytes (c ∷ s) = quote_byte c ++ quote_bytes s

-- `%q`
unfoldable pub quote_go : Bytes → Bytes
unfolding quote_bytes
quote_go s = b'"' ∷ (quote_bytes s ++ b'"' ∷ [])

unfoldable pub scope_of : WafIdentity → Bytes
unfolding quote_go
scope_of id =
    waf_namespace
    ++ (codes "="
        ++ (quote_go id.namespace ++ (codes "," ++ (waf_name ++ (codes "=" ++ quote_go id.name)))))

unfoldable pub selector_body : Bytes → WafIdentity → Bytes
unfolding scope_of
selector_body inner id =
    let t = trim_space inner in if is_empty t then scope_of id else scope_of id ++ (codes "," ++ t)

unfoldable pub inject_identity : Bytes → Bytes → WafIdentity → Result Error Bytes
unfolding selector_body
inject_identity metric inner id =
    if is_empty id.namespace || is_empty id.name
    then err invalid_identity
    else ok (metric ++ (codes "{" ++ (selector_body inner id ++ codes "}")))
