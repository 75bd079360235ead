-- ===== src/Rbac.antt =====
-- The permissions and the standard roles: src/common/constants/rbac.constants.ts.
mod Inclusion
use live_ops_backend.Prelude.{String, List, [], ◌∷◌, map}

pub data PermissionAction : Type 0 where
  production_view production_edit production_control script_view : PermissionAction
  script_edit rundown_view rundown_edit rundown_control : PermissionAction
  intercom_view intercom_manage intercom_send automation_view : PermissionAction
  automation_manage media_view media_manage analytics_view : PermissionAction
  social_view social_manage streaming_view streaming_manage : PermissionAction
  streaming_control admin_access : PermissionAction

-- the value of the enum, which requests name
abbrev pub value : PermissionAction → String
value production_view = "production:view"
value production_edit = "production:edit"
value production_control = "production:control"
value script_view = "script:view"
value script_edit = "script:edit"
value rundown_view = "rundown:view"
value rundown_edit = "rundown:edit"
value rundown_control = "rundown:control"
value intercom_view = "intercom:view"
value intercom_manage = "intercom:manage"
value intercom_send = "intercom:send"
value automation_view = "automation:view"
value automation_manage = "automation:manage"
value media_view = "media:view"
value media_manage = "media:manage"
value analytics_view = "analytics:view"
value social_view = "social:view"
value social_manage = "social:manage"
value streaming_view = "streaming:view"
value streaming_manage = "streaming:manage"
value streaming_control = "streaming:control"
value admin_access = "admin:access"

-- `Object.values(PermissionAction)`
abbrev pub all_actions : List PermissionAction
all_actions =
    production_view ∷ production_edit ∷ production_control ∷ script_view ∷ script_edit
    ∷ rundown_view ∷ rundown_edit ∷ rundown_control ∷ intercom_view ∷ intercom_manage
    ∷ intercom_send ∷ automation_view ∷ automation_manage ∷ media_view ∷ media_manage
    ∷ analytics_view ∷ social_view ∷ social_manage ∷ streaming_view ∷ streaming_manage
    ∷ streaming_control ∷ admin_access ∷ []

-- the keys of `StandardRoles`
pub data StandardRole : Type 0 where
  admin director operator talent viewer guest : StandardRole

abbrev pub director_permissions : List PermissionAction
director_permissions =
    production_view ∷ production_control ∷ script_view ∷ script_edit ∷ rundown_view ∷ rundown_edit
    ∷ rundown_control ∷ intercom_view ∷ intercom_manage ∷ intercom_send ∷ automation_view
    ∷ automation_manage ∷ analytics_view ∷ social_view ∷ social_manage ∷ media_view ∷ media_manage
    ∷ streaming_view ∷ streaming_manage ∷ streaming_control ∷ []

abbrev pub operator_permissions : List PermissionAction
operator_permissions =
    production_view ∷ production_control ∷ script_view ∷ rundown_view ∷ rundown_control
    ∷ intercom_view ∷ intercom_send ∷ automation_view ∷ analytics_view ∷ social_view ∷ media_view
    ∷ streaming_view ∷ streaming_control ∷ []

abbrev pub talent_permissions : List PermissionAction
talent_permissions = production_view ∷ script_view ∷ rundown_view ∷ streaming_view ∷ []

abbrev pub viewer_permissions : List PermissionAction
viewer_permissions = production_view ∷ script_view ∷ rundown_view ∷ streaming_view ∷ []

abbrev pub guest_permissions : List PermissionAction
guest_permissions = production_view ∷ script_view ∷ streaming_view ∷ streaming_control ∷ []

unfoldable pub permissions : StandardRole → List PermissionAction
permissions admin = all_actions
permissions director = director_permissions
permissions operator = operator_permissions
permissions talent = talent_permissions
permissions viewer = viewer_permissions
permissions guest = guest_permissions

-- what the seeded role's rows hold
abbrev pub actions : StandardRole → List String
actions r = map value (permissions r)
