-- ===== src/Api.antt =====
-- frontend/src/api: the calls of the HTTP client that each function of the API objects makes. What
-- comes back is the answer's data, unchanged.
pub mod Rbac
pub mod Users
pub mod AccessRequests
pub mod Accounts
pub mod Clusters
use clustervision.Base.{String, List, [], ◌∷◌}
use clustervision.Base.Json.{Value, undefined}

-- `client` is the intercepted client, `auth_client` the one of api/auth.ts without a token.
pub data Through : Type 0 where
  client auth_client : Through

pub data ResponseType : Type 0 where
  json text blob : ResponseType

pub record Call : Type 0 where
  pub through : Through
  pub method : String
  pub url : String
  pub params : List (String × Value)
  pub body : Value
  pub response : ResponseType

abbrev pub get_with : String → List (String × Value) → Call
get_with url params = record {
  through = client;
  method = "GET";
  url = url;
  params = params;
  body = undefined;
  response = json;
}

abbrev pub get : String → Call
get url = get_with url []

abbrev pub send : String → String → Value → Call
send method url body = record {
  through = client;
  method = method;
  url = url;
  params = [];
  body = body;
  response = json;
}

abbrev pub delete_with : String → List (String × Value) → Call
delete_with url params = record {
  through = client;
  method = "DELETE";
  url = url;
  params = params;
  body = undefined;
  response = json;
}

abbrev pub delete : String → Call
delete url = delete_with url []
