-- ===== src/Caches/Received.antt =====
-- What the server takes out of the data queue for the requests of a client, as Queue::read does: for
-- each request its whole elements, and the rest of its bytes from one more.
use capio.Base.{
  ℕ, zero, suc, ◌+◌, ◌*◌, ◌/◌, ◌%◌, ◌≤◌, ◌≡◌, refl, ap, subst, Option, none, some, List, [], ◌∷◌,
  ◌++◌, nat_beq, if◌then◌else◌, length, length-take, length-drop, take, drop, take-append-drop,
  arith, sym, ◌∙◌, ◌>>=◌, >>=-eq-some, Bool-cases, inl, inr, nat_beq_iff,
}
use mathlib.Core.Option.{some-injective}
use mathlib.Core.List.{append-nil, append_assoc}
use native.Mathlib.Nat.{div-add-mod'}
use capio.Caches.{Request, new_write_cache, WriteCache, split, whole_elements, flush}
use capio.Caches.Line.{tagged, Sent, nothing, one_more, take_all}
use capio.Caches.Written.{writes, all_tagged, writes_lem}

pub take_whole : ℕ → ℕ → List (List ℕ) → Option (List ℕ × List (List ℕ))
take_whole size zero es = some ([], es)
take_whole size (suc n) [] = none
take_whole size (suc n) (e ∷ es) =
    take_whole size n es >>= λ (bytes, rest). some (take size e ++ bytes, rest)

unfoldable pub take_rest : ℕ → List (List ℕ) → Option (List ℕ × List (List ℕ))
take_rest r es = if nat_beq r 0 then some ([], es) else first es
  where
    first : List (List ℕ) → Option (List ℕ × List (List ℕ))
    first [] = none
    first (e ∷ es) = some (take r e, es)

unfoldable pub take_bytes : ℕ → ℕ → List (List ℕ) → Option (List ℕ × List (List ℕ))
take_bytes size count es = take_whole size (count / size) es >>= λ (bytes, rest).
    take_rest (count % size) rest >>= λ (more, rest'). some (bytes ++ more, rest')

-- The bytes of each request, with its descriptor, and the elements that are left.
pub receive : ℕ → List Request → List (List ℕ) → Option (List (Option ℕ × ℕ) × List (List ℕ))
receive size [] es = some ([], es)
receive size (q ∷ qs) es = take_bytes size q.count es >>= λ (bytes, rest).
    receive size qs rest >>= λ (more, rest'). some (tagged q.fd bytes ++ more, rest')

pub take-nil : (n : ℕ) → take {A = ℕ} n [] ≡ []
take-nil zero = refl
take-nil (suc n) = refl

pub take-add : (a b k : ℕ) (xs : List ℕ) → a + b ≡ k → take a xs ++ take b (drop a xs) ≡ take k xs
take-add zero b k xs h = ap (λ n. take n xs) (omega arith)
take-add (suc a) b zero xs h = absurd (omega arith)
take-add (suc a) b (suc k) [] h = take-nil b
take-add (suc a) b (suc k) (x ∷ xs) h = ap (◌∷◌ x) (take-add a b k xs (omega arith))

pub take_whole-split :
    (size n : ℕ) (bytes : List ℕ) (tail : List (List ℕ))
    → n * size ≤ length bytes
    → take_whole size n (whole_elements size n bytes ++ tail) ≡ some (take (n * size) bytes, tail)
unfolding take_whole whole_elements
take_whole-split size zero bytes tail h =
    let z : 0 ≡ 0 * size = omega arith in ap (λ k. some (take k bytes, tail)) z
take_whole-split size (suc n) bytes tail h =
    let m : suc n * size ≡ size + n * size = omega arith in
    let l : n * size ≤ length (drop size bytes) = omega (arith, length-drop size bytes) in
    let t : take size (take size bytes) ≡ take size bytes =
      take_all (take size bytes) size (omega (arith, length-take size bytes)) in
    rw (take_whole-split size n (drop size bytes) tail l, t)
      (ap (λ b. some (b, tail)) (take-add size (n * size) (suc n * size) bytes (sym m)))

pub take_bytes-split :
    (size : ℕ) (bytes : List ℕ) (tail : List (List ℕ))
    → take_bytes size (length bytes) (split size bytes ++ tail) ≡ some (bytes, tail)
unfolding take_bytes split take_rest
take_bytes-split size bytes tail =
    let n : ℕ = length bytes / size in
    let r : ℕ = length bytes % size in
    let d : n * size + r ≡ length bytes = div-add-mod' (length bytes) size in
    elim (Bool-cases (nat_beq r 0)) [
      | inl t ↦
          let z : take (n * size) bytes ≡ bytes =
            take_all bytes (n * size) (omega (arith, d, (nat_beq_iff r 0).0 t)) in
          rw
            (
              t,
              append-nil (whole_elements size n bytes),
              take_whole-split size n bytes tail (omega (arith, d)),
            )
            (ap (λ b. some (b, tail)) (append-nil (take (n * size) bytes) ∙ z))
      | inr f ↦
          let rest : List ℕ = drop (n * size) bytes in
          let l : length rest ≤ r = omega (arith, d, length-drop (n * size) bytes) in
          rw
            (
              f,
              append_assoc (whole_elements size n bytes) (rest ∷ []) tail,
              take_whole-split size n bytes (rest ∷ tail) (omega (arith, d)),
            )
            (ap (λ b. some (take (n * size) bytes ++ b, tail)) (take_all rest r l)
              ∙ ap (λ b. some (b, tail)) (take-append-drop (n * size) bytes))
    ]

receive-cons :
    (size : ℕ) (q : Request) (qs : List Request) (es rest tail : List (List ℕ)) (bytes : List ℕ)
    (st : List (Option ℕ × ℕ))
    → take_bytes size q.count es ≡ some (bytes, rest)
    → receive size qs rest ≡ some (st, tail)
    → receive size (q ∷ qs) es ≡ some (tagged q.fd bytes ++ st, tail)
unfolding receive
receive-cons size q qs es rest tail bytes st h k =
    ap (λ t. t >>= λ (b, r). receive size qs r >>= λ (m, r'). some (tagged q.fd b ++ m, r')) h
    ∙ ap (λ t. t >>= λ (m, r'). some (tagged q.fd bytes ++ m, r')) k

-- One more request is served from what is left.
receive-append :
    (size : ℕ) (rs : List Request) (q : Request) (es es' tail : List (List ℕ))
    (st : List (Option ℕ × ℕ)) (bytes : List ℕ)
    → receive size rs es ≡ some (st, es')
    → take_bytes size q.count es' ≡ some (bytes, tail)
    → receive size (rs ++ (q ∷ [])) es ≡ some (st ++ tagged q.fd bytes, tail)
unfolding receive
receive-append size [] q es es' tail st bytes h k =
    let e : ([], es) ≡ (st, es') = some-injective ([], es) (st, es') h in
    let s : [] ≡ st = ap (λ (x : List (Option ℕ × ℕ) × List (List ℕ)). x.0) e in
    let r : es ≡ es' = ap (λ (x : List (Option ℕ × ℕ) × List (List ℕ)). x.1) e in
    receive-cons size q [] es tail tail bytes [] (ap (take_bytes size q.count) r ∙ k) refl
    ∙ ap (λ t. some (t, tail)) (append-nil (tagged q.fd bytes) ∙ ap (λ t. t ++ tagged q.fd bytes) s)
receive-append size (p ∷ rs) q es es' tail st bytes h k =
    let ((b, r), e₁, h₁) =
      >>=-eq-some (take_bytes size p.count es)
        (λ (b, r). receive size rs r >>= λ (m, r'). some (tagged p.fd b ++ m, r')) h in
    let ((m, r'), e₂, h₂) =
      >>=-eq-some (receive size rs r) (λ (m, r'). some (tagged p.fd b ++ m, r')) h₁ in
    let e : (tagged p.fd b ++ m, r') ≡ (st, es') = some-injective _ _ h₂ in
    let s : tagged p.fd b ++ m ≡ st = ap (λ (x : List (Option ℕ × ℕ) × List (List ℕ)). x.0) e in
    let t : r' ≡ es' = ap (λ (x : List (Option ℕ × ℕ) × List (List ℕ)). x.1) e in
    receive-cons size p (rs ++ (q ∷ [])) es r tail b (m ++ tagged q.fd bytes) e₁
      (receive-append size rs q r r' tail m bytes e₂ (ap (take_bytes size q.count) t ∙ k))
    ∙ ap (λ x. some (x, tail))
        (sym (append_assoc (tagged p.fd b) m (tagged q.fd bytes))
          ∙ ap (λ x. x ++ tagged q.fd bytes) s)

receive-Sent :
    (size : ℕ) (rs : List Request) (es : List (List ℕ)) (st : List (Option ℕ × ℕ))
    (tail : List (List ℕ))
    → Sent size rs es st
    → receive size rs (es ++ tail) ≡ some (st, tail)
receive-Sent size _ _ _ tail nothing = unfold receive in refl
receive-Sent size _ _ _ tail (one_more fd bytes rs es st v) =
    ap (receive size (rs ++ (record { fd = fd; count = length bytes } ∷ [])))
      (append_assoc es (split size bytes) tail)
    ∙ receive-append size rs (record { fd = fd; count = length bytes })
        (es ++ (split size bytes ++ tail)) (split size bytes ++ tail) tail st bytes
        (receive-Sent size rs es st (split size bytes ++ tail) v) (take_bytes-split size bytes tail)

-- After any writes of a client and a flush, the server, which takes as many bytes out of the queue
-- as each request says, gets just the bytes that were written, in the order that they were written
-- in and each for its descriptor, and the queue is empty.
pub writes_received :
    (size : ℕ) (ws : List (ℕ × List ℕ))
    → let c = flush (writes ws (new_write_cache size)) in
      receive size c.requests c.elements ≡ some (all_tagged ws, [])
writes_received size ws =
    let c : WriteCache = flush (writes ws (new_write_cache size)) in
    subst (λ es. receive size c.requests es ≡ some (all_tagged ws, [])) (append-nil c.elements)
      (receive-Sent size c.requests c.elements (all_tagged ws) [] (writes_lem size ws))
