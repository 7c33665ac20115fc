-- ===== src/Inspector/Window/Session.antt =====
-- The session of the window, in ios-inspector/sandstorm_inspector/app.py: connecting, refreshing,
-- launching, and what is selected.
use sandstorm_ios_driver.Prelude.{
  ℕ, String, Bool, true, false, Option, none, some, List, [], ◌∷◌, ◌++◌, map, if◌then◌else◌,
}
use sandstorm_ios_driver.Prelude.Int.{pos}
use sandstorm_ios_driver.Prelude.Text.{Text, codes, is_empty, strip}
use sandstorm_ios_driver.Python.Json.{
  Json, null, bool, int, float, str, arr, obj, Items, nil, cons, Fields, end, field,
}
use sandstorm_ios_driver.Python.Exception.{
  Except, ok, err, Exc, ios, attribute_error, type_error, Action, pure, bind, ◌>>=◌,
}
use sandstorm_ios_driver.Python.Runtime.{Runtime, truthy, lookup, or_else, to_float}
use sandstorm_ios_driver.Protocol.Messages.{DeviceInfo}
use sandstorm_ios_driver.Transport.Client.{Client}
use sandstorm_ios_driver.Sdk.Session.{seconds}
use sandstorm_ios_driver.Sdk.Application.{Application, launch}
use sandstorm_ios_driver.Sdk.Page.{Page, screenshot, snapshot}
use sandstorm_ios_driver.Sdk.Device.{
  Device, with_session, info, device_connect, device_is_connected,
}
use sandstorm_ios_driver.Inspector.Tree.{
  Node, node, Nodes, leaf, also, attr, iter_nodes, node_title, find_by_path,
}
use sandstorm_ios_driver.Inspector.HitTest.{rect_of, hit_test, describe}
use sandstorm_ios_driver.Inspector.Suggestion.{recommend}
use sandstorm_ios_driver.Inspector.Recorder.{Capture, record_launch}
use sandstorm_ios_driver.Inspector.Window.{
  Toolkit, Window, say, run, captured, shown_error, set_screenshot, highlight,
}
use text.Mathlib.Text.{◌==◌ as str_eq}

module _ {F : Type 0} where
  -- What the handler computes of the window, or raises.
  abbrev pub ask : {A : Type 0} → (Window F → Except F A) → Action F (Window F) A
  ask f w = (f w, w)

  abbrev pub modify : (Window F → Window F) → Action F (Window F) (Unit {0})
  modify f w = (ok tt, f w)

module _ {F : Type 0} ⦃rt : Runtime F⦄ where
  -- `for child in x.get("children", []) or []`, of a value that is no list
  abbrev pub no_list : Json F → Except F (Nodes F)
  no_list v = if truthy v then err type_error else ok leaf

  -- The tree that a snapshot holds. Where a part of it is no object the source raises at the first
  -- use of that part, and this at once.
  unfoldable mutual
    pub tree_of : Json F → Except F (Node F)
    tree_of (obj d) = children_of d >>= λ ns. ok (node d ns)
    tree_of null = err attribute_error
    tree_of (bool b) = err attribute_error
    tree_of (int i) = err attribute_error
    tree_of (float x) = err attribute_error
    tree_of (str s) = err attribute_error
    tree_of (arr xs) = err attribute_error

    pub children_of : Fields F → Except F (Nodes F)
    children_of end = ok leaf
    children_of (field k v d) =
        let found = children_in v in
        let rest = children_of d in if str_eq k "children" then found else rest

    pub children_in : Json F → Except F (Nodes F)
    children_in (arr xs) = nodes_of xs
    children_in (obj end) = ok leaf
    children_in (obj (field k v d)) = err attribute_error
    children_in (str []) = ok leaf
    children_in (str (c ∷ s)) = err attribute_error
    children_in null = ok leaf
    children_in (bool b) = no_list (bool b)
    children_in (int i) = no_list (int i)
    children_in (float x) = no_list (float x)

    pub nodes_of : Items F → Except F (Nodes F)
    nodes_of nil = ok leaf
    nodes_of (cons x xs) = tree_of x >>= λ n. nodes_of xs >>= λ ns. ok (also n ns)

  abbrev pub tree_if : Option (Json F) → Except F (Option (Node F))
  tree_if none = ok none
  tree_if (some null) = ok none
  tree_if (some v) = tree_of v >>= λ n. ok (some n)

  -- `float(screen.get(key) or before)`
  abbrev pub size_or : Json F → String → F → Except F F
  size_or screen k before = lookup screen k >>= λ v. to_float (or_else v (float before))

  abbrev pub point_size_of : Json F → F × F → Except F (F × F)
  point_size_of s (width, height) = lookup s "screen" >>= λ given.
      size_or (or_else given (obj end)) "width" width >>= λ w.
      size_or (or_else given (obj end)) "height" height >>= λ h. ok (w, h)

  -- `_populate_tree`: the title and the path of each item
  abbrev pub items_of : Option (Node F) → List (Text × Option (Json F))
  items_of none = []
  items_of (some root) = map (λ n. (node_title n, attr "path" n)) (iter_nodes root)

  -- 10.0 is the default timeout of a device.
  abbrev pub page : Page F
  page = record { default_timeout = seconds 10 }

  abbrev pub app : Text → Application F
  app bundle_id = record { bundle_id = bundle_id; default_timeout = seconds 10 }

  -- One screenshot and one snapshot.
  abbrev pub pulled : Bool → Action F (Client F) (List ℕ × Json F)
  pulled include_invisible = bind (screenshot none rt.one_float none false) (λ (image, files).
      bind (snapshot (pos 40) include_invisible none (seconds 150)) (λ s. pure (image, s)))

  module _ (qt : Toolkit F) where
    unfoldable pub show_tree : List ℕ → Option (Node F) → Window F → Window F
    unfolding set_screenshot
    show_tree image t w = say (codes "Refreshed") (record w {
      snapshot = t;
      view = set_screenshot rt qt image w.point_size w.view;
      tree = items_of t;
    })

    abbrev pub show : List ℕ × Json F → Action F (Window F) (Unit {0})
    show (image, s) = bind (ask (λ w. point_size_of s w.point_size)) (λ size.
        bind (modify (λ w. record w { point_size = size }))
          (λ _. bind (ask (λ w. lookup s "tree" >>= tree_if)) (λ t. modify (show_tree image t))))

    abbrev pub refreshed :
        Window F → Except F (List ℕ × Json F) × Device F → Except F (Unit {0}) × Window F
    refreshed w (ok pictures, d) = show pictures (record w { device = d })
    refreshed w (err e, d) = shown_error tt e (record w { device = d })

    unfoldable pub refresh : Action F (Window F) (Unit {0})
    unfolding device_is_connected
    refresh w =
        if device_is_connected w.device
        then refreshed (say (codes "Refreshing…") w)
            (with_session (pulled w.include_invisible) w.device)
        else (ok tt, w)

    unfoldable pub set_include_invisible : Bool → Action F (Window F) (Unit {0})
    unfolding refresh
    set_include_invisible checked w = refresh (record w { include_invisible = checked })

    abbrev pub named : DeviceInfo F → Window F → Window F
    named i w = say (codes "Connected") (record w {
      device_label = i.name ++ (codes " — iOS " ++ i.ios_version);
      point_size = (i.screen_width, i.screen_height);
    })

    -- A refused connection is shown in a dialog.
    abbrev pub in_dialog : Exc F → Window F → Except F (Unit {0}) × Window F
    in_dialog (ios e) w = (ok tt, w)
    in_dialog e w = (err e, w)

    abbrev pub connected :
        Window F → Except F (Unit {0}) × Device F → Except F (Unit {0}) × Window F
    connected w (ok u, d) =
        bind (ask (λ w. info w.device)) (λ i. bind (modify (named i)) (λ _. refresh))
          (record w { device = d })
    connected w (err e, d) = in_dialog e (record w { device = d })

    unfoldable pub connect : Action F (Window F) (Unit {0})
    unfolding refresh
    connect w = connected w (device_connect 3 w.device)

    -- A command, and what is recorded if it succeeds.
    abbrev pub perform :
        {A : Type 0} → Action F (Device F) A → Text → Capture → Action F (Window F) (Unit {0})
    perform action success capture =
        bind (run action success)
          (λ done. modify (λ w. if done then captured rt qt capture w else w))

    unfoldable pub launch_app : Action F (Window F) (Unit {0})
    unfolding refresh
    launch_app w =
        let bundle = strip w.bundle_input in
        if is_empty bundle
        then (ok tt, w)
        else bind
            (perform (with_session (launch (app bundle) [] [] w.relaunch_toggle (seconds 30)))
              (codes "Launched " ++ bundle) (record_launch bundle w.relaunch_toggle))
            (λ _. refresh) w

    abbrev pub root_or : Option (Node F) → Node F → Node F
    root_or none n = n
    root_or (some root) n = root

    -- `_select`. The item of the tree that it marks in turn selects the node of its path, which is
    -- the event `tree_selection_changed`.
    unfoldable pub select : Node F → Action F (Window F) (Unit {0})
    unfolding highlight
    select n = bind (modify (λ w. record w { selected = some n })) (λ _.
        bind (ask (λ w. rect_of n)) (λ r.
          bind (modify (λ w. record w { view = highlight rt qt r w.view })) (λ _.
            bind (ask (λ w. describe n)) (λ attributes. modify (λ w. record w {
              detail_fields = attributes;
              locator_output = recommend rt n (root_or w.snapshot n);
            })))))

    unfoldable pub select_if : Option (Node F) → Action F (Window F) (Unit {0})
    unfolding select
    select_if none w = (ok tt, w)
    select_if (some n) w = select n w

    abbrev pub found_in : Option (Node F) → Text → Option (Node F)
    found_in none path = none
    found_in (some root) path = find_by_path root path

    -- The path of the current item, a text.
    unfoldable pub tree_selection_changed : Text → Action F (Window F) (Unit {0})
    tree_selection_changed path w = select_if (found_in w.snapshot path) w

    abbrev pub hit_in : Option (Node F) → F × F → Except F (Option (Node F))
    hit_in none at = ok none
    hit_in (some root) (x, y) = hit_test root x y true

    unfoldable pub select_at_point : F × F → Action F (Window F) (Unit {0})
    select_at_point at = bind (ask (λ w. hit_in w.snapshot at)) select_if
