-- ===== src/Uppaal/Xml.antt =====
-- Text in the xml files: `xml.EscapeText` of Go's library, which uppaal/query.go, process.go and
-- system.go write labels with.
pub mod Laws
pub mod Reader
use toph.Prelude.{Text, ◌++◌, ◌==◌, List, [], if◌then◌else◌, lit, ltb, ℕ, ◌∷◌}

-- The bytes of U+FFFD, which stands for a control character.
abbrev pub replacement : Text
replacement = 239 ∷ 191 ∷ 189 ∷ []

-- Bytes of longer characters, from 128 on, are kept, as in a string that is valid UTF-8.
unfoldable pub escape_byte : ℕ → Text
escape_byte c =
    if c == 34
    then lit "&#34;"
    else if c == 39
    then lit "&#39;"
    else if c == 38
    then lit "&amp;"
    else if c == 60
    then lit "&lt;"
    else if c == 62
    then lit "&gt;"
    else if c == 9
    then lit "&#x9;"
    else if c == 10
    then lit "&#xA;"
    else if c == 13
    then lit "&#xD;"
    else if ltb c 32
    then replacement
    else c ∷ []

unfoldable pub escape : Text → Text
unfolding escape_byte
escape [] = []
escape (c ∷ s) = escape_byte c ++ escape s
