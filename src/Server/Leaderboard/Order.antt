-- ===== src/Server/Leaderboard/Order.antt =====
-- sortLeaderboard sorts: every entry stays, and none is less than one before it.
use mathlib.Core.List.{reverse, reverse_aux}
use mathlib.Core.List.Permᴰ
use mathlib.Core.List.Permᴰ.{Permᴰ}
use ctf_koth_evals_template.Prelude.{
  ℕ, ◌≤◌, ◌≡◌, refl, subst, inl, inr, true, false, Option, none, some, List, [], ◌∷◌, ◌++◌, All, In,
  All-In, arith, Bool-cases, ltb,
}
use ctf_koth_evals_template.Go.Float.{float_lt, float_eq, order_key, IsNumber}
use ctf_koth_evals_template.Wireapi.{LeaderboardEntry, Metrics}
use ctf_koth_evals_template.Server.Leaderboard.{
  less, less_metrics, sink, sink_all, sort_leaderboard,
}

-- The mean of an entry that has one is a number.
abbrev pub HasNumber : Option Metrics → Type 0
HasNumber none = Unit
HasNumber (some m) = IsNumber m.mean

abbrev pub IsRanked : LeaderboardEntry → Type 0
IsRanked e = HasNumber e.metrics

less_metrics_asym :
    (a b : Option Metrics) (s t : ℕ)
    → HasNumber a
    → HasNumber b
    → less_metrics a b (ltb s t) ≡ true
    → less_metrics b a (ltb t s) ≡ false
unfolding float_lt float_eq
less_metrics_asym none none s t h k e = ground arith
less_metrics_asym none (some n) s t h k e = absurd (cc)
less_metrics_asym (some m) none s t h k e = refl
less_metrics_asym (some m) (some n) s t h k e = ground arith

less_metrics_trans :
    (a b c : Option Metrics) (s t u : ℕ)
    → HasNumber a
    → HasNumber b
    → HasNumber c
    → less_metrics a b (ltb s t) ≡ false
    → less_metrics b c (ltb t u) ≡ false
    → less_metrics a c (ltb s u) ≡ false
unfolding float_lt float_eq
less_metrics_trans none none none s t u h k l e f = ground arith
less_metrics_trans none none (some x) s t u h k l e f = refl
less_metrics_trans none (some y) none s t u h k l e f = absurd (cc)
less_metrics_trans none (some y) (some x) s t u h k l e f = refl
less_metrics_trans (some z) none c s t u h k l e f = absurd (cc)
less_metrics_trans (some z) (some y) none s t u h k l e f = absurd (cc)
less_metrics_trans (some z) (some y) (some x) s t u h k l e f = ground arith

less_asym : (a b : LeaderboardEntry) → IsRanked a → IsRanked b → less a b ≡ true → less b a ≡ false
unfolding less
less_asym a b h k e = less_metrics_asym a.metrics b.metrics a.submitted_at b.submitted_at h k e

not_less_trans :
    (a b c : LeaderboardEntry)
    → IsRanked a
    → IsRanked b
    → IsRanked c
    → less a b ≡ false
    → less b c ≡ false
    → less a c ≡ false
unfolding less
not_less_trans a b c h k l e f =
    less_metrics_trans a.metrics b.metrics c.metrics a.submitted_at b.submitted_at c.submitted_at h
      k l e f

-- No entry is less than one before it.
abbrev pub IsSorted : List LeaderboardEntry → Type 0
IsSorted [] = Unit
IsSorted (a ∷ rest) = All (λ b. less b a ≡ false) rest × IsSorted rest

-- The same from the back.
abbrev IsReversed : List LeaderboardEntry → Type 0
IsReversed [] = Unit
IsReversed (a ∷ rest) = All (λ b. less a b ≡ false) rest × IsReversed rest

All-sink :
    (P : LeaderboardEntry → Type 0) (e : LeaderboardEntry) (ps : List LeaderboardEntry)
    → P e
    → All P ps
    → All P (sink e ps)
unfolding sink
All-sink P e [] h k = (h, tt)
All-sink P e (p ∷ ps) h k = elim (Bool-cases (less e p)) [
  | inl t ↦ rw t (k.0, All-sink P e ps h k.1)
  | inr f ↦ rw f (h, k)
]

sink-Perm : (e : LeaderboardEntry) (ps : List LeaderboardEntry) → Permᴰ (sink e ps) (e ∷ ps)
unfolding sink
sink-Perm e [] = Permᴰ.refl (e ∷ [])
sink-Perm e (p ∷ ps) = elim (Bool-cases (less e p)) [
  | inl t ↦ rw t (Permᴰ.trans (Permᴰ.cons refl (sink-Perm e ps)) (Permᴰ.swap refl refl))
  | inr f ↦ rw f (Permᴰ.refl (e ∷ p ∷ ps))
]

below_all :
    (e p : LeaderboardEntry) (qs : List LeaderboardEntry)
    → IsRanked e
    → IsRanked p
    → All IsRanked qs
    → less e p ≡ false
    → All (λ q. less p q ≡ false) qs
    → All (λ q. less e q ≡ false) qs
below_all e p [] h k l f a = tt
below_all e p (q ∷ qs) h k l f a =
    (not_less_trans e p q h k l.0 f a.0, below_all e p qs h k l.1 f a.1)

sink-IsReversed :
    (e : LeaderboardEntry) (ps : List LeaderboardEntry)
    → IsRanked e
    → All IsRanked ps
    → IsReversed ps
    → IsReversed (sink e ps)
unfolding sink
sink-IsReversed e [] h k d = (tt, tt)
sink-IsReversed e (p ∷ ps) h k d = elim (Bool-cases (less e p)) [
  | inl t ↦ rw t (
    All-sink (λ q. less p q ≡ false) e ps (less_asym e p h k.0 t) d.0,
    sink-IsReversed e ps h k.1 d.1,
  )
  | inr f ↦ rw f ((f, below_all e p ps h k.0 k.1 f d.0), d)
]

sink_all-IsReversed :
    (prefix es : List LeaderboardEntry)
    → All IsRanked prefix
    → All IsRanked es
    → IsReversed prefix
    → IsReversed (sink_all prefix es)
unfolding sink_all
sink_all-IsReversed prefix [] h k d = d
sink_all-IsReversed prefix (e ∷ es) h k d =
    sink_all-IsReversed (sink e prefix) es (All-sink IsRanked e prefix k.0 h) k.1
      (sink-IsReversed e prefix k.0 h d)

sink_all-Perm : (prefix es : List LeaderboardEntry) → Permᴰ (sink_all prefix es) (es ++ prefix)
unfolding sink_all
sink_all-Perm prefix [] = Permᴰ.refl prefix
sink_all-Perm prefix (e ∷ es) =
    Permᴰ.trans (sink_all-Perm (sink e prefix) es)
      (Permᴰ.trans (Permᴰ.append_left es (sink-Perm e prefix)) (Permᴰ.middle e es prefix))

-- Turning a list that is reversed onto a sorted one.
turned :
    (xs r : List LeaderboardEntry)
    → IsReversed xs
    → IsSorted r
    → ((x y : LeaderboardEntry) → In x xs → In y r → less y x ≡ false)
    → IsSorted (reverse_aux xs r)
turned [] r d s h = s
turned (x ∷ xs) r d s h = turned xs (x ∷ r) d.1 (over r (λ y m. h x y (inl refl) m), s) next
  where
    over :
        (r : List LeaderboardEntry)
        → ((y : LeaderboardEntry) → In y r → less y x ≡ false)
        → All (λ y. less y x ≡ false) r
    over [] h = tt
    over (y ∷ ys) h = (h y (inl refl), over ys (λ z m. h z (inr m)))

    next : (a b : LeaderboardEntry) → In a xs → In b (x ∷ r) → less b a ≡ false
    next a b m (inl e) = subst (λ z. less z a ≡ false) e (All-In (λ q. less x q ≡ false) xs a d.0 m)
    next a b m (inr n) = h a b (inr m) n

-- The place of an entry: those with scores first, the greater mean first, and of equal means, as of
-- entries without scores, the earlier submission first.
abbrev pub Precedes : Option Metrics → Option Metrics → ℕ → ℕ → Type 0
Precedes (some m) (some n) s t =
    (order_key n.mean ≤ order_key m.mean) × (order_key m.mean ≡ order_key n.mean → s ≤ t)
Precedes (some m) none s t = Unit
Precedes none (some n) s t = ⊥
Precedes none none s t = s ≤ t

abbrev pub IsRanking : List LeaderboardEntry → Type 0
IsRanking [] = Unit
IsRanking (a ∷ rest) =
    All (λ (b : LeaderboardEntry). Precedes a.metrics b.metrics a.submitted_at b.submitted_at) rest
    × IsRanking rest

metrics-Precedes :
    (a b : Option Metrics) (s t : ℕ)
    → HasNumber a
    → HasNumber b
    → less_metrics b a (ltb t s) ≡ false
    → Precedes a b s t
unfolding float_lt float_eq
metrics-Precedes none none s t h k e = ground arith
metrics-Precedes none (some n) s t h k e = absurd (cc)
metrics-Precedes (some m) none s t h k e = tt
metrics-Precedes (some m) (some n) s t h k e = ground arith

not_less-Precedes :
    (a b : LeaderboardEntry)
    → IsRanked a
    → IsRanked b
    → less b a ≡ false
    → Precedes a.metrics b.metrics a.submitted_at b.submitted_at
unfolding less
not_less-Precedes a b h k e =
    metrics-Precedes a.metrics b.metrics a.submitted_at b.submitted_at h k e

All-reversed :
    (xs r : List LeaderboardEntry)
    → All IsRanked xs
    → All IsRanked r
    → All IsRanked (reverse_aux xs r)
All-reversed [] r h k = k
All-reversed (x ∷ xs) r h k = All-reversed xs (x ∷ r) h.1 (h.0, k)

All-sunk :
    (prefix es : List LeaderboardEntry)
    → All IsRanked prefix
    → All IsRanked es
    → All IsRanked (sink_all prefix es)
unfolding sink_all
All-sunk prefix [] h k = h
All-sunk prefix (e ∷ es) h k = All-sunk (sink e prefix) es (All-sink IsRanked e prefix k.0 h) k.1

sorted-IsRanking : (es : List LeaderboardEntry) → All IsRanked es → IsSorted es → IsRanking es
sorted-IsRanking [] h s = tt
sorted-IsRanking (a ∷ rest) h s = (ahead rest h.1 s.0, sorted-IsRanking rest h.1 s.1)
  where
    ahead :
        (bs : List LeaderboardEntry)
        → All IsRanked bs
        → All (λ b. less b a ≡ false) bs
        → All
            (λ (b : LeaderboardEntry). Precedes a.metrics b.metrics a.submitted_at b.submitted_at)
            bs
    ahead [] k l = tt
    ahead (b ∷ bs) k l = (not_less-Precedes a b h.0 k.0 l.0, ahead bs k.1 l.1)

-- The sorted leaderboard holds the entries that it was given, whose means must be numbers, ranked:
-- entries with scores first, by falling mean, then by the time of submission.
pub sort_leaderboard-IsRanking :
    (es : List LeaderboardEntry)
    → All IsRanked es
    → Permᴰ (sort_leaderboard es) es × IsRanking (sort_leaderboard es)
unfolding sort_leaderboard
sort_leaderboard-IsRanking es h = (
  Permᴰ.trans (Permᴰ.reverse (sink_all [] es))
      (Permᴰ.trans (sink_all-Perm [] es) (Permᴰ.append-nil es)),
  sorted-IsRanking (reverse (sink_all [] es))
      (All-reversed (sink_all [] es) [] (All-sunk [] es tt h) tt)
      (turned (sink_all [] es) [] (sink_all-IsReversed [] es tt h tt) tt (λ x y m n. elim n [ ])),
)
