-- ===== src/Uri.antt =====
-- include/http/uri_type.h: the path that a request sends for a URI. The concept asks for seven parts as
-- text, and `get_full_path` reads two of them.
use stunning_waddle.Base.{[], ◌∷◌, ◌++◌, Bytes, is_empty, if◌then◌else◌}

pub record Uri : Type 0 where
  pub scheme : Bytes
  pub userinfo : Bytes
  pub host : Bytes
  pub port : Bytes
  pub path : Bytes
  pub query : Bytes
  pub fragment : Bytes

unfoldable pub get_full_path : Uri → Bytes
get_full_path uri =
    let p = if is_empty uri.path then 47 ∷ [] else uri.path in
    if is_empty uri.query then p else p ++ (63 ∷ uri.query)
