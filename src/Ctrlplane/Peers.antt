-- ===== src/Ctrlplane/Peers.antt =====
-- ctrlplane/src/cmn/sgw_peers.c without __USE_SQLITE3__: the SGWs that the PGW has heard of, in a
-- tail queue. malloc is taken to succeed, and the pointers to be other than NULL. `updated` is the
-- time that pgw_create_sgw_peers is called at. A callback makes a new state of its own.
pub mod Table
use mixi_pgw.Prelude.{
  ℕ, ◌+◌, ◌-◌, ◌%◌, ◌^◌, Bool, true, false, ◌==◌, if◌then◌else◌, Option, none, some, List, [], ◌∷◌,
  ◌++◌,
}

pub record SgwPeer : Type 0 where
  pub ip : ℕ
  pub counter : ℕ
  pub expire : ℕ

pub record SgwPeers : Type 0 where
  pub peers : List SgwPeer
  pub count : ℕ
  pub updated : ℕ

unfoldable pub create_sgw_peers : ℕ → SgwPeers
create_sgw_peers now = record { peers = []; count = 0; updated = now % 2 ^ 32 }

-- The loop of pgw_set_sgw_peer: the first peer with the address is written, if there is one.
unfoldable pub write_peer : ℕ → ℕ → ℕ → List SgwPeer → Option (List SgwPeer)
write_peer ip counter expire [] = none
write_peer ip counter expire (p1 ∷ rest) =
    let later = write_peer ip counter expire rest in
    if p1.ip == ip
    then some (record p1 { counter = counter; expire = expire } ∷ rest)
    else elim later [ none ↦ none | some written ↦ some (p1 ∷ written) ]

-- ERR for the address 0.
unfoldable pub set_sgw_peer : ℕ → ℕ → ℕ → SgwPeers → Option SgwPeers
set_sgw_peer ip counter expire t =
    if ip == 0 then none else elim (write_peer ip counter expire t.peers) [
      | some written ↦ some (record t { peers = written })
      | none ↦ some (record t {
        peers = t.peers ++ (record { ip = ip; counter = counter; expire = expire } ∷ []);
        count = (t.count + 1) % 2 ^ 32;
      })
    ]

-- (U32)-1
abbrev pub all_peers : ℕ
all_peers = 2 ^ 32 - 1

-- A callback is given a pointer to the peer, and may write it.
module _ {ℓ} {S : Type ℓ} (callback : S → SgwPeer → S × SgwPeer) where
  -- The peers as the callback leaves them, its state, and whether a peer was found.
  unfoldable pub visit_peers : ℕ → List SgwPeer → S → List SgwPeer × S × Bool
  visit_peers ip [] udata = ([], udata, false)
  visit_peers ip (p1 ∷ rest) udata =
      let called = callback udata p1 in
      let later = visit_peers ip rest (if ip == all_peers then called.0 else udata) in
      if ip == all_peers
      then (called.1 ∷ later.0, later.1, true)
      else if p1.ip == ip
      then (called.1 ∷ rest, called.0, true)
      else (p1 ∷ later.0, later.1, later.2)

  -- The table, the state of the callback, and whether OK is returned.
  unfoldable pub get_sgw_peer : ℕ → SgwPeers → S → SgwPeers × S × Bool
  get_sgw_peer ip t udata =
      let found = visit_peers ip t.peers udata in (record t { peers = found.0 }, found.1, found.2)

-- The loop of pgw_delete_sgw_peer: the first peer with the address is taken out.
unfoldable pub remove_peer : ℕ → List SgwPeer → List SgwPeer
remove_peer ip [] = []
remove_peer ip (p1 ∷ rest) = if p1.ip == ip then rest else p1 ∷ remove_peer ip rest

unfoldable pub delete_sgw_peer : ℕ → SgwPeers → SgwPeers
delete_sgw_peer ip t = record t { peers = remove_peer ip t.peers }
