-- ===== src/Poller/Alternating.antt =====
-- The events that the poller of internal/server/poller.go logs for one peer.
use wgrift.Base.{
  ◌≡◌, refl, Bool, true, false, not, Option, none, some, List, [], ◌∷◌, ◌++◌, Text, if◌then◌else◌,
}
use wgrift.Store.Logs.{connected, disconnected}
use wgrift.Poller.{PeerSnapshot, transition}

abbrev pub listed : Option Text → List Text
listed none = []
listed (some e) = e ∷ []

-- The events of a peer whose snapshots follow each other, from the one before them.
unfoldable pub events : PeerSnapshot → List PeerSnapshot → List Text
events prev [] = []
events prev (snap ∷ rest) = listed (transition (some prev) snap.is_connected) ++ events snap rest

-- Each event leaves the state that the one before it brought about.
abbrev pub IsAlternating : Bool → List Text → Type 0
IsAlternating state [] = Unit
IsAlternating state (e ∷ es) =
    (e ≡ (if state then disconnected else connected)) × IsAlternating (not state) es

step :
    (before now : Bool) (prev : PeerSnapshot) (es : List Text)
    → prev.is_connected ≡ before
    → IsAlternating now es
    → IsAlternating before (listed (transition (some prev) now) ++ es)
unfolding transition
step true true prev es e h = rw e h
step true false prev es e h = rw e (refl, h)
step false true prev es e h = rw e (refl, h)
step false false prev es e h = rw e h

-- Whatever snapshots a peer has one after the other, the events between them alternate: one that
-- was connected is first logged as disconnected, one that was not as connected, and so on.
pub events-IsAlternating :
    (prev : PeerSnapshot) (snaps : List PeerSnapshot)
    → IsAlternating prev.is_connected (events prev snaps)
unfolding events
events-IsAlternating prev [] = tt
events-IsAlternating prev (snap ∷ rest) =
    step prev.is_connected snap.is_connected prev (events snap rest) refl
      (events-IsAlternating snap rest)
