-- ===== src/ConnLimit.antt =====
-- server/middleware/ws_conn_limit.go: how many WebSocket connections each address has. The entries
-- of the map are pointers, so they lie in a store; each reading of the clock is an argument.
pub mod Admission
pub mod Bounds
pub mod Tests
use woongkie_talkie.Base.{
  ℕ, ◌+◌, ◌-◌, String, Bool, true, false, List, [], ◌∷◌, Option, none, some, if◌then◌else◌, eqb,
  ltb, leb, ◌==◌, ◌&&◌, Assoc, lookup, insert, remove, update,
}

pub record IpEntry : Type 0 where
  pub count : ℕ
  pub last_seen : ℕ

pub record WsConnLimiter : Type 0 where
  pub counts : Assoc ℕ
  pub entry : ℕ → IpEntry
  pub next : ℕ
  pub max_conn : ℕ

-- The entry of an address, a new one if it has none.
unfoldable pub entry_of : String → ℕ → WsConnLimiter → WsConnLimiter × ℕ
entry_of ip now l = elim (lookup ip l.counts) [
  | some e ↦ (l, e)
  | none ↦ (
    record l {
      counts = insert ip l.next l.counts;
      entry = update l.entry l.next (record { count = 0; last_seen = now });
      next = l.next + 1;
    },
    l.next,
  )
]

unfoldable pub touch : ℕ → ℕ → WsConnLimiter → WsConnLimiter
touch e now l = record l { entry = update l.entry e (record (l.entry e) { last_seen = now }) }

unfoldable pub enter : ℕ → WsConnLimiter → WsConnLimiter
enter e l = record l {
  entry = update l.entry e (record (l.entry e) { count = (l.entry e).count + 1 });
}

-- The deferred function of an admitted request.
unfoldable pub leave : ℕ → ℕ → WsConnLimiter → WsConnLimiter
leave e now l = record l {
  entry = update l.entry e (record { count = (l.entry e).count - 1; last_seen = now });
}

unfoldable pub is_full : ℕ → WsConnLimiter → Bool
is_full e l = leb l.max_conn (l.entry e).count

-- The middleware up to the handler behind it: the entry of an admitted request, or a refusal.
unfoldable pub admit : String → ℕ → WsConnLimiter → WsConnLimiter × Option ℕ
admit ip now l =
    let (l1, e) = entry_of ip now l in
    let l2 = touch e now l1 in if is_full e l2 then (l2, none) else (enter e l2, some e)

-- cleanup, for one entry of the map.
unfoldable pub clean_one : ℕ → String → WsConnLimiter → WsConnLimiter
clean_one cutoff ip l = elim (lookup ip l.counts) [
  | none ↦ l
  | some e ↦
      if eqb (l.entry e).count 0 && ltb (l.entry e).last_seen cutoff
      then record l { counts = remove ip l.counts }
      else l
]

unfoldable pub clean_all : ℕ → Assoc ℕ → WsConnLimiter → WsConnLimiter
clean_all cutoff [] l = l
clean_all cutoff ((ip, e) ∷ more) l = clean_all cutoff more (clean_one cutoff ip l)

unfoldable pub cleanup : ℕ → WsConnLimiter → WsConnLimiter
cleanup cutoff l = clean_all cutoff l.counts l
