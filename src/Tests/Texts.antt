-- ===== src/Tests/Texts.antt =====
-- Header names, percent-encoding and views.
use network_learn.Base.{◌≡◌, refl, true, false, [], ◌∷◌, some, arith, Bytes, codes}
use network_learn.Util.Hex.{to_hex}
use network_learn.Util.Nocase.{nocase_equal, IsHeaderText}
use network_learn.Util.HeaderMap.{HeaderMap}
use network_learn.Http.Url.{uri_unescape}

abbrev lower_name : Bytes
lower_name = codes "content-type"

abbrev upper_name : Bytes
upper_name = codes "Content-Type"

lower_name-IsHeaderText : IsHeaderText lower_name
lower_name-IsHeaderText = record { bytes = omega arith; size = omega arith }

upper_name-IsHeaderText : IsHeaderText upper_name
upper_name-IsHeaderText = record { bytes = omega arith; size = omega arith }

one_name : nocase_equal lower_name upper_name ≡ true
unfolding nocase_equal
one_name = refl

two_names : nocase_equal (codes "Host") (codes "Hosts") ≡ false
unfolding nocase_equal
two_names = refl

abbrev table : HeaderMap Bytes Bytes
table = (upper_name, codes "text/html") ∷ []

unescaped : uri_unescape (codes " HTTP") (codes "a%2fb%2") ≡ some (codes "a/b%2")
unfolding uri_unescape
unescaped = refl

hex_values : to_hex (codes "0x") 48879 ≡ codes "0xbeef"
unfolding to_hex
hex_values = refl
