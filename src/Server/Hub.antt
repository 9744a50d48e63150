-- ===== src/Server/Hub.antt =====
-- The event hub of internal/server/events.go. A subscriber's channel is its key with the
-- messages that it holds, oldest first. A message is the kind that `notify` puts into its JSON.
pub mod Nudges
use ctf_koth_evals_template.Prelude.{
  ℕ, ◌+◌, String, Option, none, some, List, [], ◌∷◌, ◌++◌, map, ◌==◌, ltb, if◌then◌else◌, length,
}

pub record Channel : Type 0 where
  pub key : ℕ
  pub buffer : List String

pub record Hub : Type 0 where
  pub subs : List Channel
  pub next_key : ℕ

-- make(chan []byte, 8)
abbrev pub channel_size : ℕ
channel_size = 8

unfoldable pub new_hub : Hub
new_hub = record { subs = []; next_key = 0 }

unfoldable pub subscribe : Hub → Hub × ℕ
subscribe h = (
  record {
    subs = h.subs ++ record { key = h.next_key; buffer = [] } ∷ [];
    next_key = h.next_key + 1;
  },
  h.next_key,
)

unfoldable pub delete : ℕ → List Channel → List Channel
delete k [] = []
delete k (c ∷ cs) = if c.key == k then cs else c ∷ delete k cs

-- Twice is once: the second call finds no entry to delete and to close.
unfoldable pub unsubscribe : ℕ → Hub → Hub
unfolding delete
unsubscribe k h = record h { subs = delete k h.subs }

-- `select { case ch <- msg: default: }`: a full channel drops the message.
unfoldable pub offer : String → Channel → Channel
offer msg c =
    if ltb (length c.buffer) channel_size then record c { buffer = c.buffer ++ msg ∷ [] } else c

unfoldable pub broadcast : String → Hub → Hub
unfolding offer
broadcast msg h = record h { subs = map (offer msg) h.subs }

-- What notify does with the hub, which may be nil.
unfoldable pub publish : String → Option Hub → Option Hub
unfolding broadcast
publish kind none = none
publish kind (some h) = some (broadcast kind h)

-- The stream's `case msg := <-ch`.
unfoldable pub receive : Channel → Option (String × Channel)
receive c = elim c.buffer [ [] ↦ none | msg ∷ rest ↦ some (msg, record c { buffer = rest }) ]

-- What happens to the hub: a stream begins or ends, notify is called, a stream reads its channel.
pub data Change : Type 0 where
  subscribes : Change
  unsubscribes : ℕ → Change
  broadcasts : String → Change
  receives : ℕ → Change

abbrev pub rest_of : Option (String × Channel) → Channel → Channel
rest_of none c = c
rest_of (some (msg, rest)) c = rest

-- A stream reads its own channel only.
unfoldable pub taken : ℕ → Channel → Channel
unfolding receive
taken k c = if c.key == k then rest_of (receive c) c else c

unfoldable pub change : Change → Hub → Hub
unfolding subscribe unsubscribe broadcast taken
change subscribes h = (subscribe h).0
change (unsubscribes k) h = unsubscribe k h
change (broadcasts msg) h = broadcast msg h
change (receives k) h = record h { subs = map (taken k) h.subs }

unfoldable pub change_all : List Change → Hub → Hub
unfolding change
change_all [] h = h
change_all (e ∷ es) h = change_all es (change e h)
