-- ===== src/Social/Tests.antt =====
-- Messages and polls on concrete tables.
use live_ops_backend.Prelude.{
  suc, String, ◌≡◌, refl, true, List, [], ◌∷◌, ◌++◌, none, some, World, ◌↔◌, ◌⊎◌,
}
use live_ops_backend.Prelude.Map.{Map, get}
use live_ops_backend.Prelude.Table.{Table, list_table}
use live_ops_backend.Guards.{codes}
use live_ops_backend.Social.{
  SocialMessage, SocialMessagePayload, SocialPoll, Event, MessageStatus, pending, rejected, on_air,
  message_new, message_updated, social_show, comment_of, has_word, some_word, get_blacklist,
  or_neutral, new_message, ingest_message, update_message_status,
}
use live_ops_backend.Social.Voting.{option_id, options_from, vote_poll}
use live_ops_backend.Social.Words.{BlockedFor, ingest_message_iff}
use live_ops_backend.Social.Shown.{
  OnlyShown, message_at, update_message_status-OnlyShown, foreign_message_shown,
}
use live_ops_backend.Social.Polls.{
  Call, creating, voting, closing, AllSingle, after_all, after_all-AllSingle,
}
use live_ops_backend.Social.Polls.Votes.{total, row, interleaved, interleaved_votes_lose_one}

abbrev messages : Table SocialMessage
messages = list_table (λ (m : SocialMessage). m.id)

abbrev polls : Table SocialPoll
polls = list_table (λ (p : SocialPoll). p.id)

abbrev same : String → String
same s = s

abbrev payload : SocialMessagePayload
payload = record {
  platform = "youtube";
  author = "Ana";
  avatar_url = none;
  content = "buy spam";
  external_id = none;
}

abbrev lists : Map (List String)
lists = ("p", "ham" ∷ "spam" ∷ []) ∷ []

abbrev quiet : World messages.Store Event
quiet = record { db = []; events = [] }

abbrev came_in : SocialMessage
came_in = new_message same lists none "m" "p" payload

ingest_message_iff_example :
    (came_in.status ≡ rejected)
    ↔ (((or_neutral none).is_toxic ≡ true) ⊎ BlockedFor lists "p" (codes "buy spam"))
unfolding ingest_message
ingest_message_iff_example =
    ingest_message_iff messages same lists none "m" "p" payload quiet
      (record { db = came_in ∷ []; events = message_new came_in ∷ [] }) came_in refl

rejects_spam : came_in.status ≡ rejected
unfolding get_blacklist get some_word has_word
rejects_spam = refl

abbrev message : String → MessageStatus → SocialMessage
message id status = record {
  id = id;
  production_id = "p";
  platform = "twitch";
  author = "Leo";
  author_avatar = none;
  content = "hola";
  external_id = none;
  status = status;
  ai_sentiment = "NEUTRAL";
  ai_category = "COMENTARIO";
}

abbrev shown : World messages.Store Event
shown = record { db = message "a" on_air ∷ message "b" pending ∷ []; events = [] }

abbrev b_on_air : World messages.Store Event
unfolding update_message_status
b_on_air = (update_message_status messages "p" "b" "ON_AIR" shown).1

update_message_status-OnlyShown_example :
    (on_air ≡ on_air)
    × OnlyShown "p" "b" (messages.rows b_on_air.db)
    × (b_on_air.events
        ≡ (([] ++ message_updated (message "b" on_air) ∷ [])
            ++ social_show (message "b" on_air) ∷ [])
          ++ comment_of "p" (message "b" on_air) ∷ [])
unfolding update_message_status
update_message_status-OnlyShown_example =
    update_message_status-OnlyShown messages refl "p" "b" shown b_on_air (message "b" on_air) refl

foreign_message_shown_example :
    let after = (update_message_status messages "q" "b" "ON_AIR" shown).1 in
    (message_at messages refl "q" "a" after.db ≡ some (message "a" on_air))
    × (message_at messages refl "q" "b" after.db ≡ some (message "b" on_air))
foreign_message_shown_example =
    foreign_message_shown messages refl "q" "a" "b" shown (message "a" on_air) (message "b" pending)
      refl refl refl refl refl

abbrev no_polls : World polls.Store Event
no_polls = record { db = []; events = [] }

abbrev calls : List Call
calls =
    creating "x" "p" "¿Quién gana?" ("A" ∷ "B" ∷ [])
    ∷ voting "x" (option_id 1)
    ∷ creating "y" "p" "¿Otra?" ("A" ∷ [])
    ∷ closing "y"
    ∷ []

after_all-AllSingle_example : AllSingle polls (after_all polls calls no_polls).db
after_all-AllSingle_example =
    after_all-AllSingle polls calls no_polls (record { one = λ production_id. ("x", tt) })

abbrev asked : SocialPoll
unfolding options_from
asked = record {
  id = "x";
  production_id = "p";
  question = "¿Quién gana?";
  options = options_from 0 ("A" ∷ "B" ∷ []);
  is_active = true;
}

-- the tenth option and the one after it
ids_of_two_digits : (option_id 9 ≡ codes "opt-9") × (option_id 10 ≡ codes "opt-10")
ids_of_two_digits = (refl, refl)

abbrev asking : World polls.Store Event
asking = record { db = asked ∷ []; events = [] }

interleaved_votes_lose_one_example :
    ((r : SocialPoll) × (row polls refl "x"
          (vote_poll polls "x" (option_id 1) (vote_poll polls "x" (option_id 0) asking).1).1.db
        ≡ some r)
      × (total r.options ≡ suc (suc (total asked.options))))
    × ((r : SocialPoll) × (row polls refl "x"
            (interleaved polls refl "x" (option_id 0) (option_id 1) asking).db
          ≡ some r)
        × (total r.options ≡ suc (total asked.options)))
unfolding options_from
interleaved_votes_lose_one_example =
    interleaved_votes_lose_one polls refl "x" (option_id 0) (option_id 1) asking asked
      (record { id = option_id 0; text = "A"; votes = 0 })
      (record { id = option_id 1; text = "B"; votes = 0 }) refl refl refl refl
