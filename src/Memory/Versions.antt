-- ===== src/Memory/Versions.antt =====
-- One chain of versions: what a reader sees of it when a version is added, stamped or dropped.
use Prim.Native.Nat.{max}
use open_db.Prelude.{
  ℕ, ◌≤◌, ◌<◌, ◌≡◌, refl, Bool, true, false, Option, none, some, List, [], ◌∷◌, ◌++◌, map, arith,
  ◌==◌, if◌then◌else◌, bind, ap, ◌⊎◌, inl, inr,
}
use open_db.Memory.{Version, is_visible, newest, row_of, read_row, is_staged, stamp, unstaged}

newest-append :
    (seen : Version → Bool) (vs : List Version) (v : Version)
    → newest seen (vs ++ v ∷ []) ≡ (if seen v then some v else newest seen vs)
unfolding newest
newest-append seen [] v = ground arith
newest-append seen (w ∷ vs) v = ground (arith, newest-append seen vs v)

-- A staged version is what its own transaction reads next, and no other transaction sees it.
pub read_row-append :
    (visible_seq txn t : ℕ) (vs : List Version) (v : Version)
    → v.commit_seq ≡ 0
    → v.txn_id ≡ txn
    → read_row visible_seq t (vs ++ v ∷ [])
      ≡ (if txn == t then row_of v else read_row visible_seq t vs)
unfolding read_row
read_row-append visible_seq txn t vs v z o =
    rw (newest-append (is_visible visible_seq t) vs v) (ground arith)

-- No version of the chain is staged by `txn`.
abbrev pub Clean : ℕ → List Version → Type 0
Clean txn [] = Unit
Clean txn (v ∷ vs) = (is_staged txn v ≡ false) × Clean txn vs

-- No stamp of the chain is above `seq`.
abbrev pub Past : ℕ → List Version → Type 0
Past seq [] = Unit
Past seq (v ∷ vs) = (v.commit_seq ≤ seq) × Past seq vs

pub Past-append :
    (seq : ℕ) (vs : List Version) (v : Version)
    → Past seq vs
    → v.commit_seq ≤ seq
    → Past seq (vs ++ v ∷ [])
Past-append seq [] v p h = (h, tt)
Past-append seq (w ∷ vs) v p h = (p.0, Past-append seq vs v p.1 h)

pub Past-stamp :
    (seq txn new : ℕ) (vs : List Version)
    → Past seq vs
    → Past (max seq new) (map (stamp txn new) vs)
Past-stamp seq txn new [] p = tt
Past-stamp seq txn new (v ∷ vs) p = (ground arith, Past-stamp seq txn new vs p.1)

pub Past-unstaged : (seq txn : ℕ) (vs : List Version) → Past seq vs → Past seq (unstaged txn vs)
unfolding unstaged
Past-unstaged seq txn [] p = tt
Past-unstaged seq txn (v ∷ vs) p = ground (arith, Past-unstaged seq txn vs p.1)

abbrev stamp_some : ℕ → ℕ → Option Version → Option Version
stamp_some txn seq none = none
stamp_some txn seq (some v) = some (stamp txn seq v)

newest-stamp :
    (visible_seq txn seq t : ℕ) (vs : List Version)
    → 0 < seq
    → Past visible_seq vs
    → Clean t (map (stamp txn seq) vs)
    → newest (is_visible (max visible_seq seq) t) (map (stamp txn seq) vs)
      ≡ stamp_some txn seq (newest (is_visible visible_seq txn) vs)
unfolding newest
newest-stamp visible_seq txn seq t [] h p c = refl
newest-stamp visible_seq txn seq t (v ∷ vs) h p c =
    ground (arith, newest-stamp visible_seq txn seq t vs h p.1 c.1)

row_of-stamp :
    (txn seq : ℕ) (o : Option Version) → bind (stamp_some txn seq o) row_of ≡ bind o row_of
row_of-stamp txn seq none = refl
row_of-stamp txn seq (some v) = ground arith

pub Clean-stamp :
    (txn seq t : ℕ) (vs : List Version)
    → 0 < seq
    → (t ≡ txn) ⊎ Clean t vs
    → Clean t (map (stamp txn seq) vs)
Clean-stamp txn seq t [] h c = tt
Clean-stamp txn seq t (v ∷ vs) h (inl e) = (ground arith, Clean-stamp txn seq t vs h (inl e))
Clean-stamp txn seq t (v ∷ vs) h (inr c) = (ground arith, Clean-stamp txn seq t vs h (inr c.1))

-- After the stamp everyone without writes of its own reads what the committing transaction read.
pub read_row-stamp :
    (visible_seq txn seq t : ℕ) (vs : List Version)
    → 0 < seq
    → Past visible_seq vs
    → Clean t (map (stamp txn seq) vs)
    → read_row (max visible_seq seq) t (map (stamp txn seq) vs) ≡ read_row visible_seq txn vs
unfolding read_row
read_row-stamp visible_seq txn seq t vs h p c =
    rw (newest-stamp visible_seq txn seq t vs h p c) (row_of-stamp txn seq _)

newest-unstaged :
    (visible_seq txn t : ℕ) (vs : List Version)
    → (txn == t) ≡ false
    → newest (is_visible visible_seq t) (unstaged txn vs) ≡ newest (is_visible visible_seq t) vs
unfolding newest unstaged
newest-unstaged visible_seq txn t [] n = refl
newest-unstaged visible_seq txn t (v ∷ vs) n =
    ground (arith, newest-unstaged visible_seq txn t vs n)

-- What is dropped was seen by its own transaction alone.
pub read_row-unstaged :
    (visible_seq txn t : ℕ) (vs : List Version)
    → (txn == t) ≡ false
    → read_row visible_seq t (unstaged txn vs) ≡ read_row visible_seq t vs
unfolding read_row
read_row-unstaged visible_seq txn t vs n =
    ap (λ o. bind o row_of) (newest-unstaged visible_seq txn t vs n)

pub unstaged-append :
    (txn : ℕ) (vs : List Version) (v : Version)
    → is_staged txn v ≡ true
    → unstaged txn (vs ++ v ∷ []) ≡ unstaged txn vs
unfolding unstaged
unstaged-append txn [] v s = ground arith
unstaged-append txn (w ∷ vs) v s = ground (arith, unstaged-append txn vs v s)

pub unstaged-Clean : (txn : ℕ) (vs : List Version) → Clean txn vs → unstaged txn vs ≡ vs
unfolding unstaged
unstaged-Clean txn [] c = refl
unstaged-Clean txn (v ∷ vs) c = ground (arith, unstaged-Clean txn vs c.1)
