-- ===== src/Tests/Frontends.antt =====
-- Texts of the frontend.
use distributed_cloud_storag.Prelude.{◌≡◌, refl, arith}
use distributed_cloud_storag.Text.{codes}
use distributed_cloud_storag.Frontend.Url.{
  url_encode, encode_byte, is_plain, hex_char, decode_uri_component,
}
use distributed_cloud_storag.Frontend.Url.RoundTrip.{decode_uri_component-url_encode}

url_encode-space : url_encode (codes "a b/c") ≡ codes "a%20b%2Fc"
unfolding url_encode encode_byte is_plain hex_char
url_encode-space = refl

decode_uri_component-url_encode_example :
    decode_uri_component (url_encode (codes "a b/c")) ≡ codes "a b/c"
decode_uri_component-url_encode_example =
    decode_uri_component-url_encode (codes "a b/c") (omega arith)
