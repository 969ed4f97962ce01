-- ===== src/Routing/Ipv4.antt =====
-- Ipv4ArbiterRouting: simulator/contrib/basic-sim/model/core/ipv4-arbiter-routing.cc, with its
-- arbiter set. What ns-3 says of an address and of an interface is an argument, and the callbacks
-- of `RouteInput` are given as the list of those that are called.
pub mod Input
pub mod Journey
use hypatia_multicast.Base.{
  ℕ, Bool, true, false, List, [], ◌∷◌, ◌++◌, Option, some, none, Result, ok, ◌>>=◌, ◌>>◌,
  if◌then◌else◌, not, ◌&&◌, ◌||◌, throw_if, or_throw, assertion, runtime_error,
}
use hypatia_multicast.Routing.Arbiter.{
  ArbiterResult, get_out_if_idx, get_gateway_ip_address, get_out_if_idx_multicast,
}

pub record Ipv4Route : Type 0 where
  pub destination : ℕ
  pub source : ℕ
  pub gateway : ℕ
  pub output_device : ℕ

pub record Ipv4MulticastRoute : Type 0 where
  pub group : ℕ
  pub origin : ℕ
  pub parent : ℕ
  pub output_interfaces : List ℕ

pub data Callback : Type 0 where
  unicast_forward : Ipv4Route → Callback
  multicast_forward : Ipv4MulticastRoute → Callback
  local_deliver : (iif : ℕ) → Callback

-- What ns-3 knows: kinds of addresses, the addresses of the node by interface, whether an address
-- is one that the node receives at an interface, and where forwarding is enabled.
pub record Ipv4 : Type 0 where
  pub is_multicast : ℕ → Bool
  pub is_local_multicast : ℕ → Bool
  pub is_loopback : ℕ → Bool
  pub local_address : ℕ → ℕ
  pub source_address_selection : ℕ → ℕ → ℕ
  pub is_destination_address : ℕ → ℕ → Bool
  pub is_forwarding : ℕ → Bool

-- The route to the interface that the arbiter chose, or `none` if it chose none.
unfoldable pub route_of : Ipv4 → ℕ → ArbiterResult → Result (Option Ipv4Route)
unfolding get_out_if_idx get_gateway_ip_address
route_of ip dest result = if result.failed then ok none else (do
  if_idx ← get_out_if_idx result
  gateway ← get_gateway_ip_address result
  ok (
      some (record {
        destination = dest;
        source = ip.source_address_selection if_idx dest;
        gateway = gateway;
        output_device = if_idx;
      })))

-- `LookupArbiter` for a unicast packet, with what the arbiter decides. An output device is given by
-- its interface.
unfoldable pub lookup_arbiter :
    Ipv4 → ℕ → Option ℕ → Result ArbiterResult → Result (Option Ipv4Route)
unfolding route_of
lookup_arbiter ip dest oif decision =
    if ip.is_local_multicast dest
    then (do
      device ← or_throw oif assertion
      ok (
          some (record {
            destination = dest;
            source = ip.local_address device;
            gateway = 0;
            output_device = device;
          })))
    else (do
      throw_if (elim oif [ none ↦ false | some device ↦ true ]) runtime_error
      if ip.is_loopback dest
          then ok (
              some (record {
                destination = dest;
                source = ip.source_address_selection 0 dest;
                gateway = 0;
                output_device = 0;
              }))
          else (decision >>= route_of ip dest))

-- `LookupArbiter` for a multicast packet. The outputs are the keys of a map from interfaces to one
-- time to live.
unfoldable pub lookup_multicast :
    (dest src iif : ℕ) → Result ArbiterResult → Result (Option Ipv4MulticastRoute)
unfolding get_out_if_idx_multicast
lookup_multicast dest src iif decision = do
  result ← decision
  if result.failed then ok none else (do
    throw_if (not result.is_multicast || result.is_multicast_outbound) runtime_error
    out_if_idxs ← get_out_if_idx_multicast result
    ok (
        some
          (record { group = dest; origin = src; parent = iif; output_interfaces = out_if_idxs })))

-- `RouteOutput`: the route, and whether the socket's error is ERROR_NOROUTETOHOST.
unfoldable pub route_output :
    Ipv4 → ℕ → Option ℕ → Result ArbiterResult → Result (Option Ipv4Route × Bool)
unfolding lookup_arbiter
route_output ip dest oif decision = do
  route ← lookup_arbiter ip dest oif decision
  ok (route, elim route [ none ↦ true | some r ↦ false ])

-- The multicast packets of `RouteInput`: local delivery does not exclude forwarding.
unfoldable pub input_multicast :
    Ipv4
    → (dest src iif : ℕ) → (has_lcb : Bool) → Result ArbiterResult
    → Result (List Callback × Bool)
unfolding lookup_multicast
input_multicast ip dest src iif has_lcb decision = do
  mrtentry ← lookup_multicast dest src iif decision
  let delivered =
      (if ip.is_destination_address dest iif && has_lcb then local_deliver iif ∷ [] else [])
  ok (elim mrtentry [
    | none ↦ (delivered, false)
    | some entry ↦ (delivered ++ multicast_forward entry ∷ [], true)
  ])

-- `RouteInput`: the callbacks that are called, and what is returned. A call before an exception is
-- not kept.
unfoldable pub route_input :
    Ipv4
    → (dest src iif : ℕ) → (has_lcb : Bool) → Result ArbiterResult
    → Result (List Callback × Bool)
unfolding input_multicast lookup_arbiter
route_input ip dest src iif has_lcb decision =
    if ip.is_multicast dest
    then input_multicast ip dest src iif has_lcb decision
    else if ip.is_destination_address dest iif
    then throw_if (not has_lcb) runtime_error >> ok (local_deliver iif ∷ [], true)
    else (do
      throw_if (not (ip.is_forwarding iif)) runtime_error
      route ← lookup_arbiter ip dest none decision
      ok (elim route [ none ↦ ([], false) | some r ↦ (unicast_forward r ∷ [], true) ]))
