-- ===== src/Session/Places.antt =====
-- The nodes of a table of hash.c, by their addresses.
use freepacket.Base.{
  ℕ, zero, suc, ◌<◌, ◌≡◌, sym, ap, ◌∙◌, List, [], ◌∷◌, ◌++◌, map, length as arr_length, get_or, set,
  Never, arith,
}
use mathlib.Core.List.{Perm, map-append}
use mathlib.Core.Path.{subst}
use mathlib.Core.List.Perm
use freepacket.Base.Places.{swap_front, widen, middle_to_last}
use freepacket.Queue.{Queue}
use freepacket.Queue.Single.{contents}
use freepacket.Session.{Blist, Bucket, HashTable, null_blist, empty_bucket}

abbrev pub places : List Blist → List ℕ
places nodes = map (λ (node : Blist). node.address) nodes

pub places-append : (xs ys : List Blist) → places (xs ++ ys) ≡ places xs ++ places ys
places-append xs ys = map-append (λ (node : Blist). node.address) xs ys

-- A node of a list goes to the end of the free ones.
pub ended_same :
    (before : List Blist) (node : Blist) (after free free' list : List Blist)
    → list ≡ before ++ node ∷ after
    → free' ≡ free ++ node ∷ []
    → Perm (places free ++ places list) (places free' ++ places (before ++ after))
ended_same before node after free free' list split put =
    let a = node.address in
    let old : places list ≡ places before ++ a ∷ places after =
      ap places split ∙ places-append before (node ∷ after) in
    let new : places free' ≡ places free ++ a ∷ [] =
      ap places put ∙ places-append free (node ∷ []) in
    subst (λ xs. Perm (places free ++ xs) (places free' ++ places (before ++ after))) (sym old)
      (subst
        (λ xs.
          Perm (places free ++ (places before ++ a ∷ places after))
            (xs ++ places (before ++ after)))
        (sym new)
        (subst
          (λ xs.
            Perm (places free ++ (places before ++ a ∷ places after))
              ((places free ++ a ∷ []) ++ xs))
          (sym (places-append before after))
          (middle_to_last a (places free) (places before) (places after))))

-- The nodes that are free.
abbrev pub pooled : Queue Blist → List ℕ
pooled pool = places (contents null_blist pool)

-- The nodes in sessions.
unfoldable pub in_sessions : List Bucket → List ℕ
in_sessions [] = []
in_sessions (bucket ∷ buckets) = places bucket.list ++ in_sessions buckets

-- All nodes of a table.
abbrev pub nodes_of : HashTable → List ℕ
nodes_of ht = pooled ht.session_pool ++ in_sessions ht.buckets

-- A bucket and the others.
in_sessions-set :
    (buckets : List Bucket) (i : ℕ) (b : Bucket)
    → i < arr_length buckets
    → (rs : List ℕ) × Perm (in_sessions buckets) (places (get_or buckets i empty_bucket).list ++ rs)
      × Perm (in_sessions (set buckets i b)) (places b.list ++ rs)
unfolding in_sessions
in_sessions-set [] i b h = absurd (omega (arith, h))
in_sessions-set (a ∷ buckets) zero b h = (in_sessions buckets, Perm.refl _, Perm.refl _)
in_sessions-set (a ∷ buckets) (suc i) b h =
    let (rs, old, new) = in_sessions-set buckets i b (omega (arith, h)) in
    let own = places a.list in
    (
      own ++ rs,
      Perm.trans (Perm.append_left own old)
          (swap_front own (places (get_or buckets i empty_bucket).list) rs),
      Perm.trans (Perm.append_left own new) (swap_front own (places b.list) rs),
    )

-- A change of the pool and of one bucket is one of the table.
pub bucket_moves :
    (buckets : List Bucket) (i : ℕ) (b : Bucket) (pool pool' : Queue Blist)
    → i < arr_length buckets
    → Perm
        (pooled pool ++ places (get_or buckets i empty_bucket).list)
        (pooled pool' ++ places b.list)
    → Perm (pooled pool ++ in_sessions buckets) (pooled pool' ++ in_sessions (set buckets i b))
bucket_moves buckets i b pool pool' h same =
    let (rs, old, new) = in_sessions-set buckets i b h in
    Perm.trans (Perm.append_left (pooled pool) old) (
      Perm.trans
        (widen (pooled pool) (places (get_or buckets i empty_bucket).list) (pooled pool')
          (places b.list) rs same)
        (Perm.append_left (pooled pool') (Perm.symm new)))

-- Each table of a list has the nodes that it had.
unfoldable pub SameNodes : List HashTable → List HashTable → Type 0
SameNodes [] [] = Unit
SameNodes [] (t ∷ ts) = Never
SameNodes (t ∷ ts) [] = Never
SameNodes (t ∷ ts) (t' ∷ ts') = Perm (nodes_of t) (nodes_of t') × SameNodes ts ts'

pub SameNodes-refl : (ts : List HashTable) → SameNodes ts ts
unfolding SameNodes
SameNodes-refl [] = tt
SameNodes-refl (t ∷ ts) = (Perm.refl (nodes_of t), SameNodes-refl ts)

pub SameNodes-trans :
    (ts us vs : List HashTable) → SameNodes ts us → SameNodes us vs → SameNodes ts vs
unfolding SameNodes
SameNodes-trans [] [] [] h k = tt
SameNodes-trans [] [] (v ∷ vs) h k = k
SameNodes-trans [] (u ∷ us) vs h k = elim h [ ]
SameNodes-trans (t ∷ ts) [] vs h k = elim h [ ]
SameNodes-trans (t ∷ ts) (u ∷ us) [] h k = k
SameNodes-trans (t ∷ ts) (u ∷ us) (v ∷ vs) (same, h) (same', k) =
    (Perm.trans same same', SameNodes-trans ts us vs h k)

pub SameNodes-set :
    (ts : List HashTable) (k : ℕ) (t d : HashTable)
    → Perm (nodes_of (get_or ts k d)) (nodes_of t)
    → SameNodes ts (set ts k t)
unfolding SameNodes
SameNodes-set [] k t d same = tt
SameNodes-set (u ∷ us) zero t d same = (same, SameNodes-refl us)
SameNodes-set (u ∷ us) (suc k) t d same = (Perm.refl (nodes_of u), SameNodes-set us k t d same)
