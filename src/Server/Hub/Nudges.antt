-- ===== src/Server/Hub/Nudges.antt =====
-- No channel overflows, and no subscriber misses that something changed.
use ctf_koth_evals_template.Prelude.{
  ℕ, ◌≤◌, String, ◌≡◌, refl, some, List, [], ◌∷◌, ◌++◌, map, ◌==◌, ltb, length, length-append, All,
  All-append, Bool-cases, inl, inr, arith,
}
use ctf_koth_evals_template.Server.Hub.{
  Channel, Hub, channel_size, new_hub, subscribe, delete, unsubscribe, offer, broadcast, receive,
  Change, subscribes, unsubscribes, broadcasts, receives, rest_of, taken, change, change_all,
}

abbrev pub Fits : Channel → Type 0
Fits c = length c.buffer ≤ channel_size

abbrev pub Wakes : Channel → Type 0
Wakes c = (msg : String) × (rest : Channel) × (receive c ≡ some (msg, rest))

offer-Fits : (msg : String) (c : Channel) → Fits c → Fits (offer msg c)
unfolding offer
offer-Fits msg c h = elim (Bool-cases (ltb (length c.buffer) channel_size)) [
  | inl e ↦ rw e (ground (arith, length-append c.buffer (msg ∷ [])))
  | inr e ↦ rw e h
]

taken-Fits : (k : ℕ) (c : Channel) → Fits c → Fits (taken k c)
unfolding taken receive
taken-Fits k c h = elim (Bool-cases (c.key == k)) [
  | inl e ↦ rw e (shorter c.buffer h)
  | inr e ↦ rw e h
]
  where
    shorter :
        (buffer : List String)
        → length buffer ≤ channel_size
        → Fits (
            rest_of
              (receive (record { key = c.key; buffer = buffer }))
              (record { key = c.key; buffer = buffer }))
    shorter [] h = h
    shorter (m ∷ rest) h = omega arith

All-map :
    (f : Channel → Channel) (cs : List Channel)
    → ((c : Channel) → Fits c → Fits (f c))
    → All Fits cs
    → All Fits (map f cs)
All-map f [] k h = tt
All-map f (c ∷ cs) k h = (k c h.0, All-map f cs k h.1)

delete-Fits : (k : ℕ) (cs : List Channel) → All Fits cs → All Fits (delete k cs)
unfolding delete
delete-Fits k [] h = tt
delete-Fits k (c ∷ cs) h = elim (Bool-cases (c.key == k)) [
  | inl e ↦ rw e h.1
  | inr e ↦ rw e (h.0, delete-Fits k cs h.1)
]

change-Fits : (e : Change) (h : Hub) → All Fits h.subs → All Fits (change e h).subs
unfolding change subscribe unsubscribe broadcast
change-Fits subscribes h f = All-append Fits h.subs _ f (omega arith, tt)
change-Fits (unsubscribes k) h f = delete-Fits k h.subs f
change-Fits (broadcasts msg) h f = All-map (offer msg) h.subs (offer-Fits msg) f
change-Fits (receives k) h f = All-map (taken k) h.subs (taken-Fits k) f

change_all-Fits : (es : List Change) (h : Hub) → All Fits h.subs → All Fits (change_all es h).subs
unfolding change_all
change_all-Fits [] h f = f
change_all-Fits (e ∷ es) h f = change_all-Fits es (change e h) (change-Fits e h f)

offer-Wakes : (msg : String) (c : Channel) → Wakes (offer msg c)
unfolding offer receive
offer-Wakes msg c = woken c.buffer
  where
    woken : (buffer : List String) → Wakes (offer msg (record { key = c.key; buffer = buffer }))
    woken [] = (msg, record { key = c.key; buffer = [] }, refl)
    woken (m ∷ rest) = elim (Bool-cases (ltb (length (m ∷ rest)) channel_size)) [
      | inl e ↦ rw e (m, record { key = c.key; buffer = rest ++ msg ∷ [] }, refl)
      | inr e ↦ rw e (m, record { key = c.key; buffer = rest }, refl)
    ]

offer-key : (msg : String) (c : Channel) → (offer msg c).key ≡ c.key
unfolding offer
offer-key msg c = elim (Bool-cases (ltb (length c.buffer) channel_size)) [
  | inl e ↦ rw e refl
  | inr e ↦ rw e refl
]

abbrev pub keys_of : List Channel → List ℕ
keys_of cs = map (λ (c : Channel). c.key) cs

offered :
    (msg : String) (cs : List Channel)
    → All Fits cs
    → (keys_of (map (offer msg) cs) ≡ keys_of cs)
      × All (λ (c : Channel). Fits c × Wakes c) (map (offer msg) cs)
offered msg [] h = (refl, tt)
offered msg (c ∷ cs) h =
    let (same, woken) = offered msg cs h.1 in
    ((λ i. offer-key msg c i ∷ same i), ((offer-Fits msg c h.0, offer-Wakes msg c), woken))

-- After any sequence of streams that begin and end, broadcasts and reads, a broadcast keeps every
-- subscriber, leaves at most 8 messages in each channel, and there is one in each: so no
-- subscriber that reads misses that something changed, although a full channel drops the message
-- itself.
pub broadcast-Wakes :
    (es : List Change) (msg : String)
    → (keys_of (broadcast msg (change_all es new_hub)).subs ≡ keys_of (change_all es new_hub).subs)
      × All (λ (c : Channel). Fits c × Wakes c) (broadcast msg (change_all es new_hub)).subs
unfolding broadcast
broadcast-Wakes es msg =
    offered msg (change_all es new_hub).subs (change_all-Fits es new_hub (unfold new_hub in tt))
