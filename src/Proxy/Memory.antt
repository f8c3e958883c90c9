-- ===== src/Proxy/Memory.antt =====
-- Reading memory after a write, and writes that change links only.
use flash_reduce_dev.Common.{
  ◌≡◌, ◌≢◌, refl, sym, ap, ◌∙◌, inl, inr, ◌==◌, Bool-cases, eq→==, ne→==, ==→eq,
}
use flash_reduce_dev.Proxy.State.{Ptr, ProxyArgs, update}

module _ {ℓ} {A : Type ℓ} where
  pub update_self : (f : Ptr → A) (p : Ptr) (v : A) → update f p v p ≡ v
  update_self f p v = rw (eq→== p p refl)

  pub update-ne : (f : Ptr → A) (p : Ptr) (v : A) (a : Ptr) → a ≢ p → update f p v a ≡ f a
  update-ne f p v a h = rw (ne→== a p h)

  -- A part of the values that the written value shares is the same everywhere.
  pub update-keep {κ} :
      {B : Type κ} (part : A → B) (f : Ptr → A) (p : Ptr) (v : A)
      → part v ≡ part (f p)
      → (a : Ptr) → part (update f p v a) ≡ part (f a)
  update-keep part f p v h a = elim (Bool-cases (a == p)) [
    | inl hit ↦ rw hit (h ∙ ap (λ (x : Ptr). part (f x)) (sym (==→eq a p hit)))
    | inr miss ↦ rw miss
  ]

abbrev pub next_field : ProxyArgs → Ptr
next_field n = n.next

abbrev pub peer_field : ProxyArgs → Ptr
peer_field n = n.next_peer

abbrev pub cell_field : ProxyArgs → Ptr
cell_field n = n.proxy_tail

-- All of an entry but its links.
abbrev pub payload : ProxyArgs → ProxyArgs
payload n = record n { next = 0; next_peer = 0 }

-- All of an entry but its place in the ring or the pool.
abbrev pub but_next : ProxyArgs → ProxyArgs
but_next n = record n { next = 0 }
