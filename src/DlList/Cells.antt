-- ===== src/DlList/Cells.antt =====
-- The reads and writes of one cell, at an address that is not null.
use rust_fumio.Prelude.{ℕ, ◌≡◌, false, ◌==◌, update}
use rust_fumio.DlList.{Heap, ok, null, get_next, get_prev, set_next, set_prev}

module _ (p : ℕ) (h : Heap) (real : (p == null) ≡ false) where
  pub get_next-ok : get_next p h ≡ ok (h.next p) h
  unfolding get_next
  get_next-ok = rw real

  pub get_prev-ok : get_prev p h ≡ ok (h.prev p) h
  unfolding get_prev
  get_prev-ok = rw real

module _ (p v : ℕ) (h : Heap) (real : (p == null) ≡ false) where
  pub set_next-ok : set_next p v h ≡ ok tt (record h { next = update h.next p v })
  unfolding set_next
  set_next-ok = rw real

  pub set_prev-ok : set_prev p v h ≡ ok tt (record h { prev = update h.prev p v })
  unfolding set_prev
  set_prev-ok = rw real

pub ruleset cells = (get_next-ok, get_prev-ok, set_next-ok, set_prev-ok)
