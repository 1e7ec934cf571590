-- ===== src/Tunnel/Payloads.antt =====
-- The bytes of one stream among the messages of a tunnel, as both ends count them.
use go_connect.Base.{
  ℕ, arith, reverse, reverse-cons, Bool, false, Bool-cases, inl, inr, ◌≡◌, refl, [], ◌∷◌, ◌++◌,
  List, none, some, ◌==◌, if◌then◌else◌, ap, sym, ◌∙◌,
}
use go_connect.Bytes.{Bytes}
use go_connect.Pb.{Envelope, get_open_stream, get_stream_data}

-- What there is for a stream after one more message: opening it starts over.
unfoldable pub take_in : ℕ → Envelope → Bytes → Bytes
take_in id env before = elim (get_open_stream env) [
  | some m ↦ if m.stream_id == id then [] else before
  | none ↦ elim (get_stream_data env) [
    | some m ↦ if m.stream_id == id then before ++ m.payload else before
    | none ↦ before
  ]
]

-- The payloads since the stream was last opened, from the messages, the oldest first.
unfoldable pub collect : ℕ → Bytes → List Envelope → Bytes
collect id got [] = got
collect id got (env ∷ envs) = collect id (take_in id env got) envs

abbrev pub payloads : ℕ → List Envelope → Bytes
payloads id envs = collect id [] envs

-- The same from the messages, the latest first.
unfoldable pub fed : ℕ → List Envelope → Bytes
fed id [] = []
fed id (env ∷ envs) = take_in id env (fed id envs)

pub collect-append :
    (id : ℕ) (got : Bytes) (xs ys : List Envelope)
    → collect id got (xs ++ ys) ≡ collect id (collect id got xs) ys
unfolding collect
collect-append id got [] ys = refl
collect-append id got (env ∷ xs) ys = collect-append id (take_in id env got) xs ys

pub payloads_snoc :
    (id : ℕ) (xs : List Envelope) (env : Envelope)
    → payloads id (xs ++ (env ∷ [])) ≡ take_in id env (payloads id xs)
unfolding collect
payloads_snoc id xs env = collect-append id [] xs (env ∷ [])

-- Whether a message opens the stream or carries its data.
unfoldable pub concerns : ℕ → Envelope → Bool
concerns id env = elim (get_open_stream env) [
  | some m ↦ m.stream_id == id
  | none ↦ elim (get_stream_data env) [ some m ↦ m.stream_id == id | none ↦ false ]
]

-- The messages that do, in their order.
unfoldable pub about : ℕ → List Envelope → List Envelope
about id [] = []
about id (env ∷ envs) = let rest = about id envs in if concerns id env then env ∷ rest else rest

take_in_other :
    (id : ℕ) (env : Envelope) (got : Bytes) → concerns id env ≡ false → take_in id env got ≡ got
unfolding concerns take_in
take_in_other id env got e = ground arith

collect-about :
    (id : ℕ) (got : Bytes) (envs : List Envelope)
    → collect id got (about id envs) ≡ collect id got envs
unfolding collect about
collect-about id got [] = refl
collect-about id got (env ∷ envs) = elim (Bool-cases (concerns id env)) [
  | inl e ↦ rw e (collect-about id (take_in id env got) envs)
  | inr e ↦
      rw e
        (collect-about id got envs ∙ ap (λ z. collect id z envs) (sym (take_in_other id env got e)))
]

fed-about : (id : ℕ) (envs : List Envelope) → fed id (about id envs) ≡ fed id envs
unfolding fed about
fed-about id [] = refl
fed-about id (env ∷ envs) = elim (Bool-cases (concerns id env)) [
  | inl e ↦ rw e (ap (take_in id env) (fed-about id envs))
  | inr e ↦ rw e (fed-about id envs ∙ sym (take_in_other id env (fed id envs) e))
]

payloads-reverse : (id : ℕ) (envs : List Envelope) → payloads id (reverse envs) ≡ fed id envs
unfolding fed collect
payloads-reverse id [] = refl
payloads-reverse id (env ∷ envs) =
    ap (payloads id) (reverse-cons env envs)
    ∙ payloads_snoc id (reverse envs) env
    ∙ ap (take_in id env) (payloads-reverse id envs)

-- Two lists of messages with the same messages for the stream, one in the order of time and one
-- with the latest first.
pub payloads-fed :
    (id : ℕ) (sent got : List Envelope)
    → about id sent ≡ reverse (about id got)
    → payloads id sent ≡ fed id got
payloads-fed id sent got e =
    sym (collect-about id [] sent)
    ∙ ap (payloads id) e
    ∙ payloads-reverse id (about id got)
    ∙ fed-about id got
