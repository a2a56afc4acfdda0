-- ===== src/PollLoop/Source/Examples.antt =====
-- A host that hands over two bytes after each wait, and a body of three bytes.
use pycage.Prelude.{
  ℕ, suc, ◌≤◌, ◌<◌, ◌≡◌, ◌≢◌, refl, Bool, true, false, some, none, List, [], ◌∷◌, ◌++◌, arith,
  length, min, take, drop, length-take, take-append-drop,
}
use pycage.Result.{Result, ok, err}
use pycage.Loop.{Returns, while}
use pycage.Wasi.Io.{StreamError, closed}
use pycage.PollLoop.Source.{InputStream, Stream, init, next_round, next}
use pycage.PollLoop.Source.Reading.{InputLaws, Read, next-Read}

record Feed : Type 0 where
  rest : List ℕ
  is_ready : Bool
  back : ℕ

abbrev two_of : ℕ → List ℕ → List ℕ
two_of n l = take (min n 2) l

abbrev read_feed : List ℕ → Bool → ℕ → ℕ → Result (List ℕ) StreamError × Feed
read_feed [] r back n = (err closed, record { rest = []; is_ready = r; back = back })
read_feed (x ∷ l) false back n = (ok [], record { rest = x ∷ l; is_ready = false; back = back })
read_feed (x ∷ l) true back n =
    (ok (two_of n (x ∷ l)), record { rest = drop (min n 2) (x ∷ l); is_ready = false; back = back })

abbrev feed : InputStream Feed ℕ
feed = record {
  read = λ n h. read_feed h.rest h.is_ready h.back n;
  wait = λ h. (ok tt, record h { is_ready = true });
  exit = λ h. record h { back = suc h.back };
  finish = λ h. record h { back = suc h.back };
}

feed-read :
    (l : List ℕ) (r : Bool) (back n : ℕ) (b : List ℕ)
    → (read_feed l r back n).0 ≡ ok b
    → (length b ≤ n) × (l ≡ b ++ (read_feed l r back n).1.rest)
feed-read [] r back n b e = cc
feed-read (x ∷ l) false back n b e = ground arith
feed-read (x ∷ l) true back n b e =
    ground (arith, length-take (min n 2) (x ∷ l), take-append-drop (min n 2) (x ∷ l))

feed-failed :
    (l : List ℕ) (r : Bool) (back n : ℕ) (x : StreamError)
    → (read_feed l r back n).0 ≡ err x
    → (read_feed l r back n).1.rest ≡ l
feed-failed [] r back n x e = refl
feed-failed (y ∷ l) false back n x e = cc
feed-failed (y ∷ l) true back n x e = cc

feed-ready :
    (l : List ℕ) (r : Bool) (back n : ℕ) → 0 < n → r ≡ true → (read_feed l r back n).0 ≢ ok []
feed-ready [] r back n p q e = cc
feed-ready (x ∷ l) false back n p q e = cc
feed-ready (x ∷ l) true back n p q e = ground (arith, length-take (min n 2) (x ∷ l))

feed-back : (l : List ℕ) (r : Bool) (back n : ℕ) → (read_feed l r back n).1.back ≡ back
feed-back [] r back n = refl
feed-back (x ∷ l) false back n = refl
feed-back (x ∷ l) true back n = refl

abbrev feed_laws : InputLaws feed
feed_laws = record {
  incoming = λ h. h.rest;
  ready = λ h. h.is_ready;
  returned = λ h. h.back;
  read-incoming = λ h n. feed-read h.rest h.is_ready h.back n;
  read-failed = λ h n. feed-failed h.rest h.is_ready h.back n;
  read-ready = λ h n. feed-ready h.rest h.is_ready h.back n;
  read-returned = λ h n. feed-back h.rest h.is_ready h.back n;
  wait-incoming = λ h. refl;
  wait-ready = λ h e. refl;
  wait-returned = λ h. refl;
  exit-incoming = λ h. refl;
  exit-returned = λ h. refl;
  finish-incoming = λ h. refl;
  finish-returned = λ h. refl;
}

abbrev fresh : Stream Feed
fresh = init (record { rest = 1 ∷ 2 ∷ 3 ∷ []; is_ready = false; back = 0 })

first_chunk :
    next feed 3 fresh
    ≡ some (ok (some (1 ∷ 2 ∷ [])), init (record { rest = 3 ∷ []; is_ready = false; back = 0 }))
unfolding next next_round while
first_chunk = refl

abbrev empty : Stream Feed
empty = init (record { rest = []; is_ready = false; back = 0 })

end_of_stream :
    next feed 3 empty
    ≡ some (
      ok none,
      record {
        body = false;
        stream = false;
        host = record { rest = []; is_ready = false; back = 2 };
      },
    )
unfolding next next_round while
end_of_stream = refl

next-Read_example : Returns (Read feed feed_laws fresh) (next feed 3 fresh)
next-Read_example = next-Read feed feed_laws fresh 3 (omega arith) (λ e. cc)
