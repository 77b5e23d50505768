-- ===== src/Radio/Filter.antt =====
-- workqueue_fn of Driver/sx1278.c: which packets reach the application.
use gateway_v.Base.{
  ℕ, ◌+◌, ◌-◌, ◌≡◌, refl, ◌↔◌, ◌⊎◌, true, some, [], ◌∷◌, ◌++◌, arith, ◌==◌, length, drop, replicate,
  Bool-cases, inl, inr,
}
use mathlib.Core.List.{append-nil}
use gateway_v.Text.{Bytes, strlen, c_string, strncmp_eq}
use gateway_v.Text.Terminated.{c_string-append, c_string-zeros, c_string-IsNonzero}
use gateway_v.Packet.{packet_size}
use gateway_v.Packet.Copy.{drop-replicate}
use gateway_v.Radio.{Radio}
use gateway_v.Radio.Device.{workqueue_fn}

abbrev pub IsPrefix : Bytes → Bytes → Type 0
IsPrefix [] t = Unit
IsPrefix (c ∷ s) [] = ⊥
IsPrefix (c ∷ s) (d ∷ t) = (c ≡ d) × IsPrefix s t

-- The comparison over the length of its first string asks whether that is a prefix of the second.
pub strncmp_eq_iff :
    (a b : Bytes) → (strncmp_eq a b (strlen a) ≡ true) ↔ IsPrefix (c_string a) (c_string b)
unfolding strncmp_eq strlen c_string
strncmp_eq_iff [] b = (λ _. tt, λ _. ground arith)
strncmp_eq_iff (c ∷ a) [] = elim (Bool-cases (c == 0)) [
  | inl e ↦ rw e (λ _. tt, λ _. ground arith)
  | inr e ↦ rw e (λ h. absurd (ground arith), λ h. absurd h)
]
strncmp_eq_iff (c ∷ a) (d ∷ b) = elim (Bool-cases (c == 0)) [
  | inl e ↦ rw e (λ _. tt, λ _. ground arith)
  | inr e ↦ elim (Bool-cases (d == 0)) [
    | inl z ↦ rw (e, z) (λ h. absurd (ground arith), λ h. absurd h)
    | inr z ↦
        let ih = strncmp_eq_iff a b in
        rw (e, z) (λ h. (ground arith, ih.0 (ground arith)), λ h. ground (arith, h.0, ih.1 h.1))
  ]
]

-- The work queue's two tests.
abbrev pub IsOwn : {C : Type 0} → Radio C → Type 0
IsOwn r = IsPrefix (c_string r.cache_buffer) (c_string r.transmit_buffer)

abbrev pub IsRepeated : {C : Type 0} → Radio C → Type 0
IsRepeated r = IsPrefix (c_string r.cache_buffer) (c_string r.receive_buffer)

cached :
    (s : Bytes)
    → length s ≡ packet_size
    → c_string (c_string s ++ drop (strlen s) (replicate packet_size 0)) ≡ c_string s
cached s h =
    rw
      (
        drop-replicate (strlen s) packet_size 0,
        c_string-append (c_string s) (replicate (packet_size - strlen s) 0) (c_string-IsNonzero s),
        c_string-zeros (packet_size - strlen s),
      )
      (append-nil (c_string s))

-- A cached packet whose text is a prefix neither of the last text sent nor of the last one received
-- becomes the received one, and a registered process is signalled once; any other is dropped: the
-- received packet stays, nobody is signalled and the cache is cleared.
pub workqueue_fn-filters :
    {C : Type 0} (r : Radio C) (pid : ℕ)
    → r.task ≡ some pid
    → length r.cache_buffer ≡ packet_size
    → let r' = workqueue_fn r in
      (¬ (IsOwn r ⊎ IsRepeated r)
        → (c_string r'.receive_buffer ≡ c_string r.cache_buffer) × (r'.signals ≡ r.signals + 1))
      × (IsOwn r ⊎ IsRepeated r
          → (r'.receive_buffer ≡ r.receive_buffer)
            × (r'.signals ≡ r.signals)
            × (c_string r'.cache_buffer ≡ []))
unfolding workqueue_fn
workqueue_fn-filters r pid registered size =
    let own = strncmp_eq_iff r.cache_buffer r.transmit_buffer in
    let repeated = strncmp_eq_iff r.cache_buffer r.receive_buffer in
    let n = strlen r.cache_buffer in
    elim (Bool-cases (strncmp_eq r.cache_buffer r.transmit_buffer n)) [
      | inl e ↦
          rw (workqueue_fn, e)
            (λ k. absurd (k (inl (own.0 e))), λ _. (refl, refl, c_string-zeros packet_size))
      | inr e ↦ elim (Bool-cases (strncmp_eq r.cache_buffer r.receive_buffer n)) [
        | inl f ↦
            rw (workqueue_fn, e, f)
              (λ k. absurd (k (inr (repeated.0 f))), λ _. (refl, refl, c_string-zeros packet_size))
        | inr f ↦
            rw (workqueue_fn, e, f, registered)
              (
                λ _. (unfold c_string in cached r.cache_buffer size, refl),
                λ o. elim o [
                  | inl x ↦ absurd (let t = own.1 x in cc)
                  | inr y ↦ absurd (let t = repeated.1 y in cc)
                ],
              )
      ]
    ]
