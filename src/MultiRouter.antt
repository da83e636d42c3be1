-- ===== src/MultiRouter.antt =====
-- The router over two root routers: witchcraft/multirouter.go. The routers themselves are
-- wrouter's, an interface here: R are routers, Root root routers, S what all of them hold.
pub mod Middleware
mod Tests
use witchcraft_go_server.Base.{◌≡◌, Bool, true, false, List, [], ◌∷◌, ◌++◌, String, if◌then◌else◌}

pub record Routers (R Root Added S : Type 0) : Type 0 where
  pub root_router : R → Root
  pub as_router : Root → R
  pub subrouter : R → String → R
  pub parent : R → R
  pub path : R → String
  pub same_root : Root → Root → Bool
  -- AddRequestHandlerMiddleware, AddRouteHandlerMiddleware and RegisterNotFoundHandler
  pub add : Root → List Added → S → S
  pub added : Root → S → List Added
  pub same_root-sound : (a b : Root) → same_root a b ≡ true → a ≡ b
  pub same_root-refl : (a : Root) → same_root a a ≡ true
  pub root-subrouter : (r : R) (p : String) → root_router (subrouter r p) ≡ root_router r
  pub added-add_same : (a : Root) (hs : List Added) (s : S) → added a (add a hs s) ≡ added a s ++ hs
  pub added-add_other :
      (a b : Root) (hs : List Added) (s : S)
      → same_root a b ≡ false
      → added b (add a hs s) ≡ added b s

-- What newMultiRouterImpl returns: the main router alone, or a multiRouterImpl.
pub data Router (R : Type 0) : Type 0 where
  main_only : R → Router R
  multi : R → R → Router R

-- A root router alone, or a multiRootRouterImpl.
pub data RootRouter (Root : Type 0) : Type 0 where
  root_only : Root → RootRouter Root
  multi_root : Root → Root → RootRouter Root

module _ {R Root Added S : Type 0} (ops : Routers R Root Added S) where
  unfoldable pub new_multi_router : R → R → Router R
  new_multi_router main_router mgmt_router =
      if ops.same_root (ops.root_router main_router) (ops.root_router mgmt_router)
      then main_only main_router
      else multi main_router mgmt_router

  -- The router that Register, Get to Delete, RegisteredRoutes and Path are delegated to.
  unfoldable pub delegate : Router R → R
  delegate (main_only r) = r
  delegate (multi main_router mgmt_router) = main_router

  unfoldable pub subrouter : String → Router R → Router R
  subrouter p (main_only r) = main_only (ops.subrouter r p)
  subrouter p (multi main_router mgmt_router) =
      multi (ops.subrouter main_router p) (ops.subrouter mgmt_router p)

  unfoldable pub parent : Router R → Router R
  parent (main_only r) = main_only (ops.parent r)
  parent (multi main_router mgmt_router) = multi (ops.parent main_router) (ops.parent mgmt_router)

  unfoldable pub root_router : Router R → RootRouter Root
  root_router (main_only r) = root_only (ops.root_router r)
  root_router (multi main_router mgmt_router) =
      multi_root (ops.root_router main_router) (ops.root_router mgmt_router)

  -- The embedded multiRouterImpl of a multiRootRouterImpl.
  unfoldable pub as_router : RootRouter Root → Router R
  as_router (root_only r) = main_only (ops.as_router r)
  as_router (multi_root main_router mgmt_router) =
      multi (ops.as_router main_router) (ops.as_router mgmt_router)

  -- The root router that answers ServeHTTP.
  unfoldable pub serving : RootRouter Root → Root
  serving (root_only r) = r
  serving (multi_root main_router mgmt_router) = main_router

  unfoldable pub add : RootRouter Root → List Added → S → S
  add (root_only r) hs s = ops.add r hs s
  add (multi_root main_router mgmt_router) hs s =
      let s1 = ops.add main_router hs s in
      if ops.same_root main_router mgmt_router then s1 else ops.add mgmt_router hs s1
