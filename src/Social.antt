-- ===== src/Social.antt =====
-- Messages of viewers: src/social/social.service.ts; polls are in Voting. The analysis by AI,
-- JavaScript's toLowerCase, ids and times are parameters.
pub mod Voting
pub mod Words
pub mod Polls
pub mod Shown
mod Tests
use live_ops_backend.Prelude.{
  ℕ, zero, suc, ◌+◌, String, ◌==◌, Bool, true, false, not, ◌&&◌, ◌||◌, List, [], ◌∷◌, ◌++◌, Option,
  none, some, not_found, bad_request, if◌then◌else◌, eqb, M, ◌>>=◌, ◌>>◌, throw_if, require, return,
  writes, World, emit, map, reads, is_prefix,
}
use live_ops_backend.Prelude.Map.{Map, get, set}
use live_ops_backend.Prelude.Table.{Table, update_row}
use live_ops_backend.Guards.{codes, same_codes}

pub data MessageStatus : Type 0 where
  pending approved rejected on_air : MessageStatus

-- the columns that are written
pub record SocialMessage : Type 0 where
  pub id : String
  pub production_id : String
  pub platform : String
  pub author : String
  pub author_avatar : Option String
  pub content : String
  pub external_id : Option String
  pub status : MessageStatus
  pub ai_sentiment : String
  pub ai_category : String

pub record SocialMessagePayload : Type 0 where
  pub platform : String
  pub author : String
  pub avatar_url : Option String
  pub content : String
  pub external_id : Option String

-- what the analysis answers
pub record Analysis : Type 0 where
  pub sentiment : String
  pub category : String
  pub is_toxic : Bool

-- an id is the list of its codes
pub record PollOption : Type 0 where
  pub id : List ℕ
  pub text : String
  pub votes : ℕ

pub record SocialPoll : Type 0 where
  pub id : String
  pub production_id : String
  pub question : String
  pub options : List PollOption
  pub is_active : Bool

pub data Event : Type 0 where
  message_new message_updated social_show : SocialMessage → Event
  -- production, author, content, platform and avatar
  overlay_comment : String → String → String → String → String → Event
  social_hide : String → Event
  poll_created poll_updated poll_closed : SocialPoll → Event

-- VALID_STATUSES
abbrev pub read_status : String → Option MessageStatus
read_status s =
    if s == "PENDING"
    then some pending
    else if s == "APPROVED"
    then some approved
    else if s == "REJECTED"
    then some rejected
    else if s == "ON_AIR"
    then some on_air
    else none

abbrev pub is_on_air : MessageStatus → Bool
is_on_air on_air = true
is_on_air _ = false

-- `text.includes(word)`
unfoldable pub has_word : List ℕ → List ℕ → Bool
has_word [] word = is_prefix word []
has_word (c ∷ cs) word = let rest = has_word cs word in is_prefix word (c ∷ cs) || rest

unfoldable pub some_word : List ℕ → List String → Bool
unfolding has_word
some_word text [] = false
some_word text (word ∷ words) =
    let rest = some_word text words in has_word text (codes word) || rest

-- the words of a production, lower-cased
unfoldable pub set_blacklist :
    (String → String) → String → List String → Map (List String) → Map (List String)
set_blacklist lower production_id words lists = set lists production_id (map lower words)

abbrev pub or_empty : Option (List String) → List String
or_empty none = []
or_empty (some words) = words

unfoldable pub get_blacklist : String → Map (List String) → List String
get_blacklist production_id lists = or_empty (get lists production_id)

-- what the constructor sets
unfoldable pub first_blacklists : Map (List String)
first_blacklists = ("default", "spam" ∷ "buy followers" ∷ "scam" ∷ []) ∷ []

-- what stands where the analysis failed
abbrev pub or_neutral : Option Analysis → Analysis
or_neutral none = record { sentiment = "NEUTRAL"; category = "COMENTARIO"; is_toxic = false }
or_neutral (some a) = a

abbrev pub status_of : Bool → Bool → MessageStatus
status_of is_clean is_toxic = if not is_clean || is_toxic then rejected else pending

abbrev pub new_message :
    (String → String)
    → Map (List String)
    → Option Analysis
    → String
    → String
    → SocialMessagePayload
    → SocialMessage
unfolding get_blacklist some_word
new_message lower lists answer id production_id payload =
    let a = or_neutral answer in
    record {
      id = id;
      production_id = production_id;
      platform = payload.platform;
      author = payload.author;
      author_avatar = payload.avatar_url;
      content = payload.content;
      external_id = payload.external_id;
      status =
          status_of
            (not (some_word (codes (lower payload.content)) (get_blacklist production_id lists)))
            a.is_toxic;
      ai_sentiment = a.sentiment;
      ai_category = a.category;
    }

-- `message.authorAvatar || ''`
abbrev pub avatar_or : Option String → String
avatar_or none = ""
avatar_or (some url) = url

abbrev pub comment_of : String → SocialMessage → Event
comment_of production_id m =
    overlay_comment production_id m.author m.content m.platform (avatar_or m.author_avatar)

-- `where: { productionId, status: 'ON_AIR' }`
abbrev pub is_shown : String → SocialMessage → Bool
is_shown production_id m = m.production_id == production_id && is_on_air m.status

abbrev pub with_status : MessageStatus → SocialMessage → SocialMessage
with_status status m = record m { status = status }

module _ (messages : Table SocialMessage) where
  unfoldable pub ingest_message :
      (String → String)
      → Map (List String)
      → Option Analysis
      → String
      → String
      → SocialMessagePayload
      → M (World messages.Store Event) SocialMessage
  unfolding new_message
  ingest_message lower lists answer id production_id payload = do
    let message = new_message lower lists answer id production_id payload
    writes (λ w. record w { db = messages.create message w.db })
    emit (message_new message)
    return message

  -- the message that was on air is approved
  abbrev pub take_off_air : MessageStatus → String → M (World messages.Store Event) (Unit {0})
  take_off_air on_air production_id = writes (λ w. record w {
    db = messages.update_many (is_shown production_id) (with_status approved) w.db;
  })
  take_off_air _ production_id = return tt

  abbrev pub show :
      MessageStatus → String → SocialMessage → M (World messages.Store Event) (Unit {0})
  show on_air production_id message = do
    emit (social_show message)
    emit (comment_of production_id message)
  show _ production_id message = emit (social_hide production_id)

  unfoldable pub update_message_status :
      String → String → String → M (World messages.Store Event) SocialMessage
  update_message_status production_id message_id text = do
    status ← require (read_status text) (bad_request "Invalid status")
    take_off_air status production_id
    message ← update_row messages message_id (with_status status)
    emit (message_updated message)
    show status production_id message
    return message
