-- ===== src/Server/Theme/Names.antt =====
-- crates/devsite-server/src/theme.rs: the properties that a theme may set, and the named colours.
use devsite.Prelude.{List, [], ◌∷◌, Text, text}

pub data Kind : Type 0 where
  color length_value number folder_names : Kind
  keyword : List Text → Kind

abbrev pub scheme : Text
scheme = text "--devsite-scheme"

abbrev pub folders : Text
folders = text "--devsite-folders"

abbrev pub open_folders : Text
open_folders = text "--devsite-open-folders"

abbrev pub folder_order : Text
folder_order = text "--devsite-folder-order"

abbrev pub properties : List (Text × Kind)
properties =
    (scheme, keyword (text "light" ∷ text "dark" ∷ text "auto" ∷ []))
    ∷ (folders, keyword (text "open" ∷ text "closed" ∷ []))
    ∷ (open_folders, folder_names)
    ∷ (folder_order, folder_names)
    ∷ (text "--pico-background-color", color)
    ∷ (text "--pico-color", color)
    ∷ (text "--pico-muted-color", color)
    ∷ (text "--pico-muted-border-color", color)
    ∷ (text "--pico-border-color", color)
    ∷ (text "--pico-text-selection-color", color)
    ∷ (text "--pico-primary", color)
    ∷ (text "--pico-primary-background", color)
    ∷ (text "--pico-primary-hover", color)
    ∷ (text "--pico-primary-hover-background", color)
    ∷ (text "--pico-primary-inverse", color)
    ∷ (text "--pico-primary-underline", color)
    ∷ (text "--pico-primary-focus", color)
    ∷ (text "--pico-secondary", color)
    ∷ (text "--pico-secondary-background", color)
    ∷ (text "--pico-secondary-hover", color)
    ∷ (text "--pico-secondary-inverse", color)
    ∷ (text "--pico-contrast", color)
    ∷ (text "--pico-contrast-background", color)
    ∷ (text "--pico-contrast-inverse", color)
    ∷ (text "--pico-h1-color", color)
    ∷ (text "--pico-h2-color", color)
    ∷ (text "--pico-h3-color", color)
    ∷ (text "--pico-h4-color", color)
    ∷ (text "--pico-h5-color", color)
    ∷ (text "--pico-h6-color", color)
    ∷ (text "--pico-card-background-color", color)
    ∷ (text "--pico-card-border-color", color)
    ∷ (text "--pico-card-sectioning-background-color", color)
    ∷ (text "--pico-code-background-color", color)
    ∷ (text "--pico-code-color", color)
    ∷ (text "--pico-mark-background-color", color)
    ∷ (text "--pico-mark-color", color)
    ∷ (text "--pico-blockquote-border-color", color)
    ∷ (text "--pico-accordion-active-summary-color", color)
    ∷ (text "--pico-accordion-close-summary-color", color)
    ∷ (text "--pico-accordion-open-summary-color", color)
    ∷ (text "--pico-ins-color", color)
    ∷ (text "--pico-del-color", color)
    ∷ (text "--pico-form-element-background-color", color)
    ∷ (text "--pico-form-element-border-color", color)
    ∷ (text "--pico-form-element-color", color)
    ∷ (text "--pico-box-shadow", keyword (text "unset" ∷ []))
    ∷ (text "--pico-border-radius", length_value)
    ∷ (text "--pico-border-width", length_value)
    ∷ (text "--pico-outline-width", length_value)
    ∷ (text "--pico-spacing", length_value)
    ∷ (text "--pico-block-spacing-vertical", length_value)
    ∷ (text "--pico-block-spacing-horizontal", length_value)
    ∷ (text "--pico-typography-spacing-vertical", length_value)
    ∷ (text "--pico-form-element-spacing-vertical", length_value)
    ∷ (text "--pico-form-element-spacing-horizontal", length_value)
    ∷ (text "--pico-nav-element-spacing-vertical", length_value)
    ∷ (text "--pico-nav-element-spacing-horizontal", length_value)
    ∷ (text "--pico-text-underline-offset", length_value)
    ∷ (text "--pico-font-size", length_value)
    ∷ (text "--pico-line-height", number)
    ∷ (text "--pico-font-weight", keyword (text "400" ∷ text "700" ∷ []))
    ∷ (text "--pico-text-decoration", keyword (text "none" ∷ text "underline" ∷ []))
    ∷ []

abbrev pub named_colors : List Text
named_colors =
    text "aliceblue"
    ∷ text "antiquewhite"
    ∷ text "aqua"
    ∷ text "aquamarine"
    ∷ text "azure"
    ∷ text "beige"
    ∷ text "bisque"
    ∷ text "black"
    ∷ text "blanchedalmond"
    ∷ text "blue"
    ∷ text "blueviolet"
    ∷ text "brown"
    ∷ text "burlywood"
    ∷ text "cadetblue"
    ∷ text "chartreuse"
    ∷ text "chocolate"
    ∷ text "coral"
    ∷ text "cornflowerblue"
    ∷ text "cornsilk"
    ∷ text "crimson"
    ∷ text "cyan"
    ∷ text "darkblue"
    ∷ text "darkcyan"
    ∷ text "darkgoldenrod"
    ∷ text "darkgray"
    ∷ text "darkgreen"
    ∷ text "darkgrey"
    ∷ text "darkkhaki"
    ∷ text "darkmagenta"
    ∷ text "darkolivegreen"
    ∷ text "darkorange"
    ∷ text "darkorchid"
    ∷ text "darkred"
    ∷ text "darksalmon"
    ∷ text "darkseagreen"
    ∷ text "darkslateblue"
    ∷ text "darkslategray"
    ∷ text "darkslategrey"
    ∷ text "darkturquoise"
    ∷ text "darkviolet"
    ∷ text "deeppink"
    ∷ text "deepskyblue"
    ∷ text "dimgray"
    ∷ text "dimgrey"
    ∷ text "dodgerblue"
    ∷ text "firebrick"
    ∷ text "floralwhite"
    ∷ text "forestgreen"
    ∷ text "fuchsia"
    ∷ text "gainsboro"
    ∷ text "ghostwhite"
    ∷ text "gold"
    ∷ text "goldenrod"
    ∷ text "gray"
    ∷ text "green"
    ∷ text "greenyellow"
    ∷ text "grey"
    ∷ text "honeydew"
    ∷ text "hotpink"
    ∷ text "indianred"
    ∷ text "indigo"
    ∷ text "ivory"
    ∷ text "khaki"
    ∷ text "lavender"
    ∷ text "lavenderblush"
    ∷ text "lawngreen"
    ∷ text "lemonchiffon"
    ∷ text "lightblue"
    ∷ text "lightcoral"
    ∷ text "lightcyan"
    ∷ text "lightgoldenrodyellow"
    ∷ text "lightgray"
    ∷ text "lightgreen"
    ∷ text "lightgrey"
    ∷ text "lightpink"
    ∷ text "lightsalmon"
    ∷ text "lightseagreen"
    ∷ text "lightskyblue"
    ∷ text "lightslategray"
    ∷ text "lightslategrey"
    ∷ text "lightsteelblue"
    ∷ text "lightyellow"
    ∷ text "lime"
    ∷ text "limegreen"
    ∷ text "linen"
    ∷ text "magenta"
    ∷ text "maroon"
    ∷ text "mediumaquamarine"
    ∷ text "mediumblue"
    ∷ text "mediumorchid"
    ∷ text "mediumpurple"
    ∷ text "mediumseagreen"
    ∷ text "mediumslateblue"
    ∷ text "mediumspringgreen"
    ∷ text "mediumturquoise"
    ∷ text "mediumvioletred"
    ∷ text "midnightblue"
    ∷ text "mintcream"
    ∷ text "mistyrose"
    ∷ text "moccasin"
    ∷ text "navajowhite"
    ∷ text "navy"
    ∷ text "oldlace"
    ∷ text "olive"
    ∷ text "olivedrab"
    ∷ text "orange"
    ∷ text "orangered"
    ∷ text "orchid"
    ∷ text "palegoldenrod"
    ∷ text "palegreen"
    ∷ text "paleturquoise"
    ∷ text "palevioletred"
    ∷ text "papayawhip"
    ∷ text "peachpuff"
    ∷ text "peru"
    ∷ text "pink"
    ∷ text "plum"
    ∷ text "powderblue"
    ∷ text "purple"
    ∷ text "rebeccapurple"
    ∷ text "red"
    ∷ text "rosybrown"
    ∷ text "royalblue"
    ∷ text "saddlebrown"
    ∷ text "salmon"
    ∷ text "sandybrown"
    ∷ text "seagreen"
    ∷ text "seashell"
    ∷ text "sienna"
    ∷ text "silver"
    ∷ text "skyblue"
    ∷ text "slateblue"
    ∷ text "slategray"
    ∷ text "slategrey"
    ∷ text "snow"
    ∷ text "springgreen"
    ∷ text "steelblue"
    ∷ text "tan"
    ∷ text "teal"
    ∷ text "thistle"
    ∷ text "tomato"
    ∷ text "turquoise"
    ∷ text "violet"
    ∷ text "wheat"
    ∷ text "white"
    ∷ text "whitesmoke"
    ∷ text "yellow"
    ∷ text "yellowgreen"
    ∷ []
