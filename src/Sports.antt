-- ===== src/Sports.antt =====
-- Match clocks: src/sports/sports.service.ts. A match stays in the map once it is there, so the object
-- that a timer holds is the one of its production. What an overlay binds and the broadcast's other
-- names for the fields of a match are left out; `parse_int` is JavaScript's, none for NaN.
pub mod Clock
mod Tests
use live_ops_backend.Prelude.{
  ℕ, zero, suc, ◌+◌, ◌/◌, ◌%◌, String, ◌==◌, Bool, true, false, not, List, [], ◌∷◌, ◌++◌, Option,
  none, some, if◌then◌else◌, eqb, get_or, is_some,
}
use live_ops_backend.Prelude.Map.{Map, get, set, delete}

pub record LineupPlayer : Type 0 where
  pub number : String
  pub name : String
  pub position : String
  pub image : Option String

pub record BestPlayer : Type 0 where
  pub name : String
  pub team : String
  pub number : String
  pub position : String
  pub image : Option String
  pub rating : Option String
  pub goals : Option String
  pub assists : Option String

pub record SportsMatch : Type 0 where
  pub id : String
  pub production_id : String
  pub team_a : String
  pub team_b : String
  pub score_a : ℕ
  pub score_b : ℕ
  pub period : String
  -- seconds
  pub timer : ℕ
  pub is_running : Bool
  pub lineup_a : List LineupPlayer
  pub lineup_b : List LineupPlayer
  pub coach_a : String
  pub coach_b : String
  pub coach_a_image : Option String
  pub coach_b_image : Option String
  pub formation_a : String
  pub formation_b : String
  pub primary_color_a : String
  pub primary_color_b : String
  pub secondary_color_a : String
  pub secondary_color_b : String
  pub title_text_a : String
  pub title_text_b : String
  pub match_info : String
  pub competition_logo : String
  pub hashtag : String
  pub referees : List String
  pub logo_a : Option String
  pub logo_b : Option String
  pub best_player : Option BestPlayer

abbrev pub eleven : List LineupPlayer
eleven =
    let p : LineupPlayer = record { number = ""; name = ""; position = ""; image = none } in
    p ∷ p ∷ p ∷ p ∷ p ∷ p ∷ p ∷ p ∷ p ∷ p ∷ p ∷ []

-- `id` is `match-${productionId}`
abbrev pub default_match : String → String → SportsMatch
default_match id p = record {
  id = id;
  production_id = p;
  team_a = "Local";
  team_b = "Visitante";
  score_a = 0;
  score_b = 0;
  period = "1T";
  timer = 0;
  is_running = false;
  lineup_a = eleven;
  lineup_b = eleven;
  coach_a = "";
  coach_b = "";
  coach_a_image = some "";
  coach_b_image = some "";
  formation_a = "4-3-3";
  formation_b = "4-4-2";
  primary_color_a = "#dc2626";
  primary_color_b = "#1e40af";
  secondary_color_a = "#fbbf24";
  secondary_color_b = "#fbbf24";
  title_text_a = "ONCE TITULAR";
  title_text_b = "ONCE TITULAR";
  match_info = "";
  competition_logo = "";
  hashtag = "";
  referees = "" ∷ "" ∷ "" ∷ [];
  logo_a = none;
  logo_b = none;
  best_player = some (record {
    name = "";
    team = "A";
    number = "";
    position = "";
    image = some "";
    rating = some "";
    goals = some "";
    assists = some "";
  });
}

pub data Event : Type 0 where
  -- the broadcast of a match
  match_data : SportsMatch → Event
  -- what a tick sends: the production and its seconds, with `is_running: true`
  clock_data : String → ℕ → Event

pub record Sports : Type 0 where
  pub matches : Map SportsMatch
  -- the interval of a production, by its handle
  pub timers : Map ℕ
  -- the production whose match an interval that runs holds
  pub intervals : ℕ → Option String
  pub next_interval : ℕ
  pub events : List Event

-- `f[k] = a`
abbrev pub put : {A : Type 0} → ℕ → A → (ℕ → A) → ℕ → A
put k a f j = if eqb j k then a else f j

abbrev pub emit : Event → Sports → Sports
emit e s = record s { events = s.events ++ e ∷ [] }

-- `updateMatch` of one field or another: what Object.assign does to the match
abbrev pub assign : String → SportsMatch → Sports → Sports
assign p m s = record s { matches = set s.matches p m }

-- `clearInterval` of the production's interval, if it has one
unfoldable pub clear_timer : String → Sports → Sports
clear_timer p s = elim (get s.timers p) [
  | none ↦ s
  | some h ↦ record s { intervals = put h none s.intervals; timers = delete s.timers p }
]

abbrev pub start_timer : String → Sports → Sports
start_timer p s = record s {
  intervals = put s.next_interval (some p) s.intervals;
  timers = set s.timers p s.next_interval;
  next_interval = suc s.next_interval;
}

abbrev pub flipped : SportsMatch → SportsMatch
flipped m = record m { is_running = not m.is_running }

module _ (id_of : String → String) where
  -- the match that getMatch returns, and the state with it
  unfoldable pub match_of : String → Sports → SportsMatch
  match_of p s = get_or (get s.matches p) (default_match (id_of p) p)

  unfoldable pub with_match : String → Sports → Sports
  with_match p s = if is_some (get s.matches p) then s else assign p (default_match (id_of p) p) s

  -- `getMatch`, and what follows it with the match
  abbrev pub changed : String → (SportsMatch → SportsMatch) → Sports → Sports
  changed p f s = let t = with_match p s in assign p (f (match_of p t)) t

  abbrev pub broadcast_update : String → Sports → Sports
  broadcast_update p s = let t = with_match p s in emit (match_data (match_of p t)) t

  unfoldable pub update_match : String → (SportsMatch → SportsMatch) → Sports → Sports
  unfolding with_match match_of
  update_match p f s = broadcast_update p (changed p f s)

  unfoldable pub reset_timer : String → Sports → Sports
  unfolding with_match match_of
  reset_timer p s = broadcast_update p (changed p (λ m. record m { timer = 0 }) s)

  unfoldable pub toggle_timer : String → Sports → Sports
  unfolding with_match match_of clear_timer
  toggle_timer p s =
      let t = changed p flipped (clear_timer p (with_match p s)) in
      broadcast_update p (if (match_of p t).is_running then start_timer p t else t)

  -- the callback of an interval that runs
  unfoldable pub tick : ℕ → Sports → Sports
  unfolding with_match match_of
  tick h s = elim (s.intervals h) [
    | none ↦ s
    | some p ↦
        let t = changed p (λ m. record m { timer = suc m.timer }) s in
        emit (clock_data p (match_of p t).timer) t
  ]
