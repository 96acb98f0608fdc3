-- ===== src/Presence/Tests.antt =====
-- A Redis in memory: the theorems at concrete inputs.
use mathlib.Core.List.{append-nil}
use woongkie_talkie.Base.{
  ℕ, ◌≡◌, arith, refl, sym, String, true, false, List, [], ◌∷◌, some, ltb, map,
}
use woongkie_talkie.Redis.{Store, has, is_live, execute_all, Redis}
use woongkie_talkie.Presence.{World, get_online_users, presence_set_key, presence_user_key}
use woongkie_talkie.Presence.Keys.{presence, typing}
use woongkie_talkie.Presence.Runs.{
  Op, marks, clears, refreshes, asks, deadlines, query_lists_deadlines,
}
use woongkie_talkie.Presence.StaleRace.{refreshed, stale_removal_hides}
use woongkie_talkie.Presence.Refinement.{the_store}

abbrev memory : Redis
memory = record {
  State = Store;
  store = λ s. s;
  pipeline = λ now cs s. (true, execute_all now cs s);
  s_members = λ key s. some (s.sets key);
  all_exist = λ now keys s. some (map (λ k. is_live now k s) keys);
  pipeline_lem = λ now cs s. record {
    done = cs;
    rest = [];
    both = sym (append-nil cs);
    all = λ e. refl;
    effect = refl;
  };
  s_members_lem = λ key s members e u. cc e;
  all_exist_lem = λ now keys s live e. cc e;
}

abbrev empty : World memory
empty = record { has_client = true; state = record { sets = λ _. []; expires = λ _. 0 } }

abbrev room : String
room = "0123456789abcdef01234567"

-- ann stays by a refresh, bob's time passes, cat leaves; bob types.
abbrev day : List (ℕ × Op)
day =
    (10, marks presence room "ann")
    ∷ (10, marks presence room "bob")
    ∷ (20, marks presence room "cat")
    ∷ (300, refreshes room "ann")
    ∷ (301, asks presence room)
    ∷ (302, clears presence room "cat")
    ∷ (310, marks typing room "bob")
    ∷ []

query_lists_deadlines_example :
    has "bob" ("ann" ∷ []) ≡ ltb 312 (deadlines day (λ _ _ _. 0) presence room "bob")
unfolding woongkie_talkie.Presence.set_online woongkie_talkie.Presence.refresh_online
    get_online_users woongkie_talkie.Presence.check_members woongkie_talkie.Presence.set_offline
    woongkie_talkie.Presence.remove_stale woongkie_talkie.Presence.split_members
    woongkie_talkie.Presence.set_typing
query_lists_deadlines_example =
    query_lists_deadlines memory 0 312 day empty presence room ("ann" ∷ []) refl refl (ground arith)
      refl refl refl "bob"

-- bob is a member whose key has expired.
abbrev left_over : World memory
left_over = record {
  has_client = true;
  state = record { sets = λ key. "bob" ∷ []; expires = λ key. 5 };
}

stale_removal_hides_example :
    let after = refreshed memory 10 20 room "bob" ("bob" ∷ []) left_over in
    (is_live 30 (presence_user_key room "bob") (the_store memory after) ≡ true)
    × ((us : List String)
        → (get_online_users memory 30 room after).0 ≡ some us
        → has "bob" us ≡ false)
unfolding woongkie_talkie.Presence.check_members woongkie_talkie.Presence.split_members
    woongkie_talkie.Presence.set_online woongkie_talkie.Presence.refresh_online
    woongkie_talkie.Presence.remove_stale
stale_removal_hides_example =
    stale_removal_hides memory 10 20 30 room "bob" ("bob" ∷ []) [] ("bob" ∷ []) left_over refl refl
      refl refl refl refl (omega arith) refl (omega arith)
