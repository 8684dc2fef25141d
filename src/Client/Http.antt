-- ===== src/Client/Http.antt =====
-- `BotChatHttpClient` of plugins/openclaw-bot-chat/src/client/http.ts. The network, `JSON.parse`,
-- `encodeURIComponent` and the text of a number are parameters.
pub mod Paths
use openclaw_bot_chat.Base.{
  ℕ, ℤ, Bool, true, false, Option, none, some, List, [], ◌∷◌, ◌++◌, Text, txt, is_truthy, split,
  map, if◌then◌else◌,
}
use openclaw_bot_chat.Values.{Value, undefined, str, arr, obj, Fields, item, has_item, elems}
use openclaw_bot_chat.Topics.{slash}
use openclaw_bot_chat.Runtime.State.{FetchResult, fetched, http_error, failed}

-- A request of the service: `new URL(endpoint, baseUrl)` and `fetch` are the network's.
pub record HttpRequest : Type 0 where
  pub base_url : Text
  pub method : Text
  pub endpoint : Text
  pub query : List (Text × Text)
  pub headers : List (Text × Text)

pub data Response : Type 0 where
  no_response : Response
  response : Bool → ℕ → Text → Response

pub record Network : Type 0 where
  pub fetch : HttpRequest → Response
  pub parse : Text → Option Value
  pub encode : Text → Text
  pub number_text : ℤ → Text

pub record BotChatHttpClient : Type 0 where
  pub base_url : Text
  pub access_key : Text

pub data Answer : Type 0 where
  payload : Value → Answer
  error_status : ℕ → Answer
  no_answer : Answer

-- `segments.join("/")`
unfoldable pub join : ℕ → List Text → Text
join c [] = []
join c (t ∷ []) = t
join c (t ∷ u ∷ ts) = t ++ c ∷ join c (u ∷ ts)

unfoldable pub encode_conversation_path : (Text → Text) → Text → Text
encode_conversation_path encode conversation_id =
    join slash (map encode (split slash conversation_id))

unfoldable pub unwrap_payload : Value → Value
unwrap_payload (obj fs) = if has_item (txt "data") fs then item (txt "data") fs else obj fs
unwrap_payload value = value

module _ (network : Network) where
  unfoldable pub parse_json : Text → Value
  parse_json text = elim (network.parse text) [ some value ↦ value | none ↦ str text ]

  abbrev parsed : Text → Value
  parsed text = if is_truthy text then parse_json text else undefined

  unfoldable pub read_response : Response → Answer
  unfolding parse_json unwrap_payload
  read_response no_response = no_answer
  read_response (response true status text) = payload (unwrap_payload (parsed text))
  read_response (response false status text) = error_status status

  abbrev build_headers : BotChatHttpClient → List (Text × Text)
  build_headers client =
      (txt "Accept", txt "application/json") ∷ (txt "X-Bot-Key", client.access_key) ∷ []

  -- `request` with a method that sends no body: the plugin sends none.
  unfoldable pub request : BotChatHttpClient → Text → Text → List (Text × Text) → Answer
  unfolding read_response
  request client method endpoint query = read_response (
      network.fetch (record {
        base_url = client.base_url;
        method = method;
        endpoint = endpoint;
        query = query;
        headers = build_headers client;
      }))

  unfoldable pub bootstrap : BotChatHttpClient → Answer
  unfolding request
  bootstrap client = request client (txt "GET") (txt "/api/v1/bot-runtime/bootstrap") []

  abbrev number_query : Text → Option ℤ → List (Text × Text) → List (Text × Text)
  number_query name none rest = rest
  number_query name (some n) rest = (name, network.number_text n) ∷ rest

  abbrev list_of : Value → Option (List Value)
  list_of (arr values) = some (elems values)
  list_of _ = none

  abbrev first_list : Option (List Value) → Option (List Value) → List Value
  first_list (some values) other = values
  first_list none (some values) = values
  first_list none none = []

  unfoldable pub messages_of : Value → List Value
  messages_of (arr values) = elems values
  messages_of (obj fs) =
      first_list (list_of (item (txt "messages") fs)) (list_of (item (txt "items") fs))
  messages_of _ = []

  abbrev fetch_result : Answer → FetchResult
  fetch_result (payload value) = fetched (messages_of value)
  fetch_result (error_status status) = http_error status
  fetch_result no_answer = failed

  unfoldable pub get_conversation_messages :
      BotChatHttpClient → Text → Option ℤ → Option ℤ → FetchResult
  unfolding request messages_of encode_conversation_path
  get_conversation_messages client conversation_id after_seq limit = fetch_result (
      request client (txt "GET")
        (txt "/api/v1/bot-runtime/messages/"
          ++ encode_conversation_path network.encode conversation_id)
        (number_query (txt "after_seq") after_seq (number_query (txt "limit") limit [])))
