-- ===== src/Tests/Routing.antt =====
-- Requests over the network to the server of Tests/Sync.antt, and to one with a second workspace.
use text.Mathlib.Text.{◌==◌ as str_eq}
use obsidian_live_syncinator.Prelude.{
  ◌≡◌, refl, sym, ap, ◌∙◌, some, none, true, [], ◌∷◌, ◌++◌, ℤ, pos,
}
use obsidian_live_syncinator.Diff.{Text}
use obsidian_live_syncinator.Http.{stop}
use obsidian_live_syncinator.Repository.{File}
use obsidian_live_syncinator.Repository.Integrity.{IsIntact}
use obsidian_live_syncinator.Repository.Others.{owned}
use obsidian_live_syncinator.Mux.{atoi, Method, get, delete}
use obsidian_live_syncinator.Server.{Syncinator}
use obsidian_live_syncinator.Auth.{
  strip_prefix, bearer, unauthorized, verify_token, extract_bearer_token,
}
use obsidian_live_syncinator.Auth.Tokens.{Names}
use obsidian_live_syncinator.System.{fetch_file, api_handler}
use obsidian_live_syncinator.Routing.{
  HttpRequest, Network, accepted, bearer_token, ws_token, serve_http,
}
use obsidian_live_syncinator.Routing.Table.{for_file, by_get}
use obsidian_live_syncinator.Routing.Access.{serve_http-nameless, serve_http-Asks}
use obsidian_live_syncinator.Routing.Authority.{Authorized, serve_http-Authorized}
use obsidian_live_syncinator.Routing.Tenants.{serve_http-owned}
use obsidian_live_syncinator.Tests.Platform.{platform}
use obsidian_live_syncinator.Tests.Auth.{signer}
use obsidian_live_syncinator.Tests.Sync.{note, database, server}

abbrev network : Network
network = record {
  jwt = signer;
  matches = str_eq;
  cors = λ methods r. none;
  accept = λ r. accepted 12 "uuid";
  mime = record {
    head = λ t. t;
    detect_content_type = λ t. "text/plain";
    is_utf8 = λ t. true;
    extension = λ s. "";
    type_by_extension = λ s. "";
    parse_media_type = λ s. none;
  };
}

-- The first file, asked for with an authorization.
abbrev asking : Method → Text → HttpRequest
asking method authorization = record {
  method = method;
  path = "v1" ∷ "api" ∷ "file" ∷ "1" ∷ [];
  authorization = authorization;
  jwt = [];
  from = "";
  file_id = "";
  zip = record { created = λ f. true; copied = λ f. true; closed = true };
  upload = record {
    content_type = "";
    parsed = true;
    file = none;
    path = "";
    is_base64 = true;
    decoded = none;
  };
  rename = record { within_limit = true; path = none };
  within_limit = true;
  credentials = none;
  workspace = none;
}

-- The token of a workspace, of the time 500.
abbrev token_of : Text → Text
token_of subject = bearer ++ (1_800_000_000_500 ∷ 500 ∷ 500 ∷ subject)

abbrev seven : Text
seven = token_of (0 ∷ 7 ∷ [])

-- There is no token.
nobody :
    (w : ℤ) → ¬ Names signer [] 700 (bearer_token platform network [] 700 "uuid" (asking get [])) w
unfolding extract_bearer_token strip_prefix
nobody w (token, e, v) = cc

serve_http-nameless_example :
    serve_http platform network [] 700 "uuid" (asking get []) server ≡ (stop unauthorized, server)
serve_http-nameless_example =
    serve_http-nameless platform network [] 700 "uuid" (asking get []) server refl refl nobody

named_seven :
    Names signer [] 700 (bearer_token platform network [] 700 "uuid" (asking get seven)) (pos 7)
unfolding extract_bearer_token strip_prefix verify_token
named_seven = (_, refl, refl)

serve_http-Asks_example :
    serve_http platform network [] 700 "uuid" (asking get seven) server
    ≡ api_handler platform (pos 7) (fetch_file (atoi "1")) server
serve_http-Asks_example =
    serve_http-Asks platform network [] 700 "uuid" (asking get seven) server (pos 7) refl refl
      named_seven (for_file "1" refl by_get)

-- The note, and one of workspace 8.
abbrev diary : File
diary = record note { id = pos 2; workspace_path = "d.md"; workspace_id = pos 8 }

abbrev two_tenants : Syncinator platform
two_tenants = record server { db = record database { files = note ∷ diary ∷ []; file_seq = 2 } }

two_tenants-IsIntact : IsIntact two_tenants.db
two_tenants-IsIntact = record {
  names = (refl, tt);
  ids = (refl, (refl, tt));
  issued = (refl, (refl, tt));
  paths = (refl, (refl, tt));
  versions = (refl, (refl, tt));
  owners = (refl, (refl, tt));
  snapshots = (refl, (refl, (refl, tt)));
  types = (refl, (refl, (refl, tt)));
  sources = (refl, (refl, (refl, tt)));
}

not_eight :
    ¬ Names signer [] 700
      (bearer_token platform network [] 700 "uuid" (asking delete seven))
      (pos 8)
unfolding extract_bearer_token strip_prefix verify_token
not_eight (token, e, v) =
    let same : token ≡ 1_800_000_000_500 ∷ 500 ∷ 500 ∷ 0 ∷ 7 ∷ [] = cc in
    let verdict : some (pos 7) ≡ some (pos 8) = sym (ap (verify_token signer [] 700) same) ∙ v in cc

-- A request of workspace 7 to delete its note.
serve_http-owned_example :
    owned
      (pos 8)
      (serve_http platform network [] 700 "uuid" (asking delete seven) two_tenants).1.db.files
    ≡ owned (pos 8) two_tenants.db.files
serve_http-owned_example =
    serve_http-owned platform network [] 700 "uuid" (pos 8) (asking delete seven) two_tenants
      two_tenants-IsIntact not_eight

-- A subscriber of workspace 7 connects.
abbrev connecting : HttpRequest
connecting = record (asking get []) {
  path = "v1" ∷ "sync" ∷ [];
  jwt = 1_800_000_000_500 ∷ 500 ∷ 500 ∷ 0 ∷ 7 ∷ [];
}

serve_http-Authorized_example :
    Authorized platform network [] 700
      (bearer_token platform network [] 700 "uuid" connecting)
      (ws_token platform network [] 700 "uuid" connecting)
      server
      (serve_http platform network [] 700 "uuid" connecting server).1
serve_http-Authorized_example =
    serve_http-Authorized platform network [] 700 "uuid" server connecting
