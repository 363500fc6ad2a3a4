-- ===== src/Distributed/Honest.antt =====
-- The processes of distributed/ when all of them run and follow the protocol.
pub mod Peers
pub mod Orders
pub mod Users
pub mod Completes
pub mod Enrolment
pub mod Runs
use mathlib.Core.Path.{subst}
use fabric_simulator.Prelude.{
  ℕ, ℤ, pos, ◌+◌, ◌≡◌, ◌<◌, ◌∙◌, ◌⊎◌, inl, inr, refl, sym, ap, Bool, true, false, Bool-cases,
  Option, none, some, List, [], ◌∷◌, ◌++◌, length, get_elem?, ◌==◌, ◌||◌, ◌&&◌, arith,
  if◌then◌else◌,
}
use fabric_simulator.Platform.{Platform, Bytes}
use fabric_simulator.Exec.{Exec, ok, ◌>>=◌}
use fabric_simulator.Exec.Returns.{Returns, Any}
use fabric_simulator.Params.{SystemParameters}
use fabric_simulator.Simulator.Peer.{bytes_equal}
use fabric_simulator.Simulator.Peer.Identity.{bytes_equal-eq}
use fabric_simulator.Distributed.Types.{Transaction, RpcPeer, RpcRevocation, World}
use fabric_simulator.Distributed.Rpc.{now, sleep, fresh_rand, set_peer, receiver, assign}

-- Whether a peer listens at the address.
unfoldable pub listed : Bytes → List Bytes → Bool
listed a [] = false
listed a (b ∷ bs) = bytes_equal a b || listed a bs

module _ {c : Platform} (p : SystemParameters c) (authority_pk : c.Pk) where
  -- A peer as MakeRPCPeer makes it, with the key of the authority.
  pub record HonestPeer (me : RpcPeer c) : Type 0 where
    pub prg : c.Rand
    pub sk_made : me.sk ≡ (c.generate_keys prg 0).0
    pub pk_made : me.pk ≡ (c.generate_keys prg 0).1
    pub knows : me.revocation_pk ≡ authority_pk

  -- An honest peer runs at the address, with this ledger.
  pub record PeerUp (w : World c) (a : Bytes) (ledger : List Transaction) : Type 0 where
    pub peer : RpcPeer c
    pub running : w.peers a ≡ some peer
    pub honest : HonestPeer peer
    pub its_ledger : peer.transactions ≡ ledger

  -- At every address a peer runs with the ledger that `ledgers` tells, and the authority is at epoch `k`.
  pub record Up (ledgers : Bytes → List Transaction) (k : ℕ) (w : World c) : Type 0 where
    pub peers : (a : Bytes) → listed a p.peer_rpc_addresses ≡ true → PeerUp w a (ledgers a)
    pub epoch : w.epoch ≡ k
    pub authority : (x : RpcRevocation c) × (w.revocation ≡ some x)

  module _ (ledgers : Bytes → List Transaction) (k : ℕ) where
    pub Up-clock :
        (w : World c) (clock reads : ℕ)
        → Up ledgers k w
        → Up ledgers k (record w { clock = clock; clock_reads = reads })
    Up-clock w clock reads h = record {
      peers = λ a l.
          let x = h.peers a l in
          record {
            peer = x.peer;
            running = x.running;
            honest = x.honest;
            its_ledger = x.its_ledger;
          };
      epoch = h.epoch;
      authority = h.authority;
    }

    pub now-Returns : Returns (Up ledgers k) (now c) Any
    unfolding now
    now-Returns = record { at = λ w h. (_, _, refl, tt, Up-clock w _ _ h) }

    pub sleep-Returns : (n : ℕ) → Returns (Up ledgers k) (sleep c n) Any
    unfolding sleep ◌>>=◌
    sleep-Returns n = record { at = λ w h. (_, _, refl, tt, Up-clock w _ _ h) }

    pub fresh_rand-Returns : Returns (Up ledgers k) (fresh_rand c) Any
    unfolding fresh_rand now ◌>>=◌
    fresh_rand-Returns = record { at = λ w h. (_, _, refl, tt, Up-clock w _ _ h) }

    pub receiver-Returns :
        (self : Bytes)
        → listed self p.peer_rpc_addresses ≡ true
        → Returns (Up ledgers k) (receiver self) HonestPeer
    unfolding receiver ◌>>=◌
    receiver-Returns self l = record {
      at = λ w h. let x = h.peers self l in (x.peer, w, rw (x.running) refl, x.honest, h);
    }

  -- A peer is replaced by one that is as honest.
  Up-set :
      (ledgers after : Bytes → List Transaction) (k : ℕ) (self : Bytes) (me : RpcPeer c)
      (w : World c)
      → HonestPeer me
      → me.transactions ≡ after self
      → ((b : Bytes) → bytes_equal b self ≡ false → after b ≡ ledgers b)
      → Up ledgers k w
      → Up after k (record w { peers = set_peer self (some me) w.peers })
  unfolding set_peer
  Up-set ledgers after k self me w honest its others h = record {
    peers = λ b l. elim (Bool-cases (bytes_equal b self)) [
      | inl same ↦ record {
        peer = me;
        running = rw (same) refl;
        honest = honest;
        its_ledger = its ∙ ap after (sym (bytes_equal-eq b self same));
      }
      | inr other ↦
          let x = h.peers b l in
          record {
            peer = x.peer;
            running = rw (other) x.running;
            honest = x.honest;
            its_ledger = x.its_ledger ∙ sym (others b other);
          }
    ];
    epoch = h.epoch;
    authority = h.authority;
  }

  -- `f` changes the ledger of the peer as it stands in `after`.
  pub assign_lem :
      (ledgers after : Bytes → List Transaction) (k : ℕ) (self : Bytes) (f : RpcPeer c → RpcPeer c)
      → listed self p.peer_rpc_addresses ≡ true
      → ((me : RpcPeer c) → HonestPeer me → HonestPeer (f me))
      → ((me : RpcPeer c) → me.transactions ≡ ledgers self → (f me).transactions ≡ after self)
      → ((b : Bytes) → bytes_equal b self ≡ false → after b ≡ ledgers b)
      → (w : World c) → Up ledgers k w
      → (w' : World c) × (assign self f w ≡ (ok tt, w')) × Up after k w'
  unfolding assign receiver ◌>>=◌
  assign_lem ledgers after k self f l honest its others w h =
      let x = h.peers self l in
      (
        _,
        rw (x.running) refl,
        Up-set ledgers after k self (f x.peer) w (honest x.peer x.honest) (its x.peer x.its_ledger)
            others h,
      )
